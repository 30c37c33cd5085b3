-- ===== src/Request.antt =====
-- `struct cg_client_req` of include/core/cg_client.h, and its bounds. Buffers are lists of all of
-- their bytes.
use compuguessr.Base.{ℕ, ◌<◌, ◌≡◌, List, length}

abbrev pub max_uri_len : ℕ
max_uri_len = 128

abbrev pub max_method_len : ℕ
max_method_len = 16

abbrev pub max_stdin_len : ℕ
max_stdin_len = 4096

pub record Request : Type 0 where
  pub uri : List ℕ
  pub method : List ℕ
  pub session_id : List ℕ
  pub req_id : ℕ
  pub keep_alive : ℕ
  pub stdin_len : ℕ
  pub stdin_buf : List ℕ

-- The buffers have the sizes that the structure declares, and the body in `stdin_buf` leaves
-- room for the NUL that follows it.
pub record IsValid (r : Request) : Type 0 where
  pub uri_size : length r.uri ≡ max_uri_len
  pub method_size : length r.method ≡ max_method_len
  pub session_size : length r.session_id ≡ 32
  pub stdin_size : length r.stdin_buf ≡ max_stdin_len
  pub stdin_fits : r.stdin_len < max_stdin_len
