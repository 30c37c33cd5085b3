-- ===== src/Fastcgi/Record.antt =====
-- The record header of include/core/cg_fastcgi.h, and the handlers of BEGIN_REQUEST and STDIN.
use compuguessr.Base.{
  ℕ, ◌+◌, ◌*◌, ◌/◌, ◌%◌, ◌≤◌, ◌<◌, bit_and, Bool, List, [], ◌∷◌, arith, length, take, get_or, set,
  length-set, Run, ok, fail, out_of_bounds, ◌>>=◌, Returns, refl, ◌≡◌, length-take, Bool-cases, inl,
  inr, ◌^◌, ◌==◌, ltb, if◌then◌else◌,
}
use compuguessr.Base.Text.{write, length-write}
use compuguessr.Base.Words.{u8, u32}
use compuguessr.Fastcgi.Params.{byte}
use compuguessr.Request.{Request, IsValid, max_stdin_len}

-- The 16-bit fields hold the two bytes of the wire as the little-endian machine reads them.
pub record Header : Type 0 where
  pub version : ℕ
  pub type : ℕ
  pub request_id : ℕ
  pub content_len : ℕ
  pub padding_len : ℕ
  pub reserved : ℕ

abbrev pub header_size : ℕ
header_size = 8

abbrev pub bswap16 : ℕ → ℕ
bswap16 x = x % 256 * 256 + x / 256 % 256

-- The low and the high byte of a 16-bit field, in the order of memory.
abbrev pub bytes16 : ℕ → List ℕ
bytes16 x = (x % 256) ∷ (x / 256 % 256) ∷ []

-- The header in memory, and the copy out of memory.
abbrev pub header_bytes : Header → List ℕ
header_bytes h =
    u8 h.version
    ∷ u8 h.type
    ∷ (h.request_id % 256)
    ∷ (h.request_id / 256 % 256)
    ∷ (h.content_len % 256)
    ∷ (h.content_len / 256 % 256)
    ∷ u8 h.padding_len
    ∷ u8 h.reserved
    ∷ []

abbrev pub read_header : List ℕ → Header
read_header buf = record {
  version = get_or buf 0 0;
  type = get_or buf 1 0;
  request_id = get_or buf 2 0 + get_or buf 3 0 * 256;
  content_len = get_or buf 4 0 + get_or buf 5 0 * 256;
  padding_len = get_or buf 6 0;
  reserved = get_or buf 7 0;
}

abbrev pub begin_request_type : ℕ
begin_request_type = 1

abbrev pub end_request_type : ℕ
end_request_type = 3

abbrev pub params_type : ℕ
params_type = 4

abbrev pub stdin_type : ℕ
stdin_type = 5

abbrev pub stdout_type : ℕ
stdout_type = 6

-- The request of a new transaction.
abbrev pub begin_with : Request → Header → ℕ → Request
begin_with req hdr flags = record req {
  keep_alive = bit_and flags 1;
  req_id = hdr.request_id;
  stdin_len = 0;
  stdin_buf = set req.stdin_buf 0 0;
  session_id = set req.session_id 0 0;
}

-- `body->flags` is the third byte of the payload. The code reads it whatever the length of the
-- payload is: past the payload it is what the buffer holds there, so `payload` is the buffer
-- from the payload on; past the buffer it is out of bounds.
unfoldable pub handle_begin_request : Request → Header → List ℕ → Run Request
handle_begin_request req hdr payload = do flags ← byte payload 2; ok (begin_with req hdr flags)

-- The handler's result: `true` is CG_FASTCGI_STATUS_READY, `false` is 1.
unfoldable pub handle_stdin : Request → ℕ → List ℕ → Request × Bool
handle_stdin req content_len payload =
    if content_len == 0
    then (req, Bool.true)
    else if ltb (u32 (req.stdin_len + content_len)) max_stdin_len
    then (let len = u32 (req.stdin_len + content_len) in
        (
          record req {
            stdin_buf = set (write req.stdin_buf req.stdin_len (take content_len payload)) len 0;
            stdin_len = len;
          },
          Bool.false,
        ))
    else (req, Bool.false)

pub handle_begin_request_lem :
    (req : Request) (hdr : Header) (payload : List ℕ)
    → 2 < length payload
    → handle_begin_request req hdr payload ≡ ok (begin_with req hdr (get_or payload 2 0))
unfolding handle_begin_request
handle_begin_request_lem req hdr (a ∷ b ∷ c ∷ rest) h = refl
handle_begin_request_lem req hdr [] h = absurd (omega arith)
handle_begin_request_lem req hdr (a ∷ []) h = absurd (omega arith)
handle_begin_request_lem req hdr (a ∷ b ∷ []) h = absurd (omega arith)

pub handle_begin_request-IsValid :
    (req : Request) (hdr : Header) (payload : List ℕ)
    → IsValid req
    → 2 < length payload
    → Returns (handle_begin_request req hdr payload) IsValid
unfolding handle_begin_request
handle_begin_request-IsValid req hdr payload v three = (
  _,
  handle_begin_request_lem req hdr payload three,
  ground (arith, length-set req.stdin_buf 0 0, length-set req.session_id 0 0),
)

pub handle_begin_request-overruns :
    (req : Request) (hdr : Header) (payload : List ℕ)
    → length payload < 3
    → handle_begin_request req hdr payload ≡ fail out_of_bounds
unfolding handle_begin_request
handle_begin_request-overruns req hdr [] h = refl
handle_begin_request-overruns req hdr (a ∷ []) h = refl
handle_begin_request-overruns req hdr (a ∷ b ∷ []) h = refl
handle_begin_request-overruns req hdr (a ∷ b ∷ c ∷ rest) h = absurd (omega arith)

-- The body stays within its buffer, with its NUL.
pub handle_stdin-IsValid :
    (req : Request) (content_len : ℕ) (payload : List ℕ)
    → content_len ≤ length payload
    → content_len < 2 ^ 16
    → IsValid req
    → IsValid (handle_stdin req content_len payload).0
unfolding handle_stdin
handle_stdin-IsValid req content_len payload fits small v =
    let body = take content_len payload in
    let sized = length-take content_len payload in
    let len = u32 (req.stdin_len + content_len) in
    elim (Bool-cases (content_len == 0)) [
      | inl done ↦ rw done v
      | inr some' ↦ elim (Bool-cases (ltb len max_stdin_len)) [
        | inr over ↦ rw (some', over) v
        | inl room ↦
            let kept =
              length-write req.stdin_buf req.stdin_len body
                (ground (arith, sized, v.stdin_size, v.stdin_fits)) in
            rw (some', room)
              (ground (arith, kept, length-set (write req.stdin_buf req.stdin_len body) len 0))
      ]
    ]
