-- ===== src/App.antt =====
-- src/app/cg_app.c: the state of the program, behind its initialization, and what its parts share.
-- A pointer to a client is its index in the pool; there is one listener.
pub mod Tags
pub mod Accepting
pub mod Peer
pub mod Start
pub mod Loop
pub mod Program
use compuguessr.Base.{
  ℕ, ◌+◌, ◌-◌, ◌*◌, ◌^◌, bit_and, bit_or, Bool, true, false, List, [], ◌∷◌, ◌++◌,
}
use compuguessr.Base.Int.{ℤ}
use compuguessr.Base.Text.{codes}
use compuguessr.Clients.{Client}
use compuguessr.Hashmap.{Map}
use compuguessr.Log
use compuguessr.Router.Profile.{World}
use compuguessr.Time.{datetime_str}
use compuguessr.Uring.{Ring}

-- `enum cg_fastcgi_state`
pub data ListenState : Type 0 where
  accept_sqe accept_cqe error_state : ListenState

-- `struct cg_fastcgi_ctx`; `path` is `sun_path`, and `family` tells that `AF_UNIX` is set.
pub record Listener : Type 0 where
  pub state : ListenState
  pub family : Bool
  pub path : List ℕ
  pub sockfd : ℤ

-- The variables of the file, the two databases, what has been logged, and the descriptors that
-- `close` has been called with.
pub record App : Type 0 where
  pub ts_buf : List ℕ
  pub ring : Ring
  pub listener : Listener
  pub pool : List Client
  pub routes : Map
  pub world : World
  pub log : List (List ℕ)
  pub closed : List ℤ

abbrev pub tag_fastcgi : ℕ
tag_fastcgi = 0x1000000000000000

abbrev pub tag_client : ℕ
tag_client = 0x2000000000000000

abbrev pub tag_timestamp : ℕ
tag_timestamp = 0x3000000000000000

abbrev pub ptr_mask : ℕ
ptr_mask = 0x0000FFFFFFFFFFFF

abbrev pub tag_ptr : ℕ → ℕ → ℕ
tag_ptr ptr tag = bit_or ptr tag

abbrev pub untag_ptr : ℕ → ℕ
untag_ptr val = bit_and val ptr_mask

abbrev pub get_tag : ℕ → ℕ
get_tag val = bit_and val (2 ^ 64 - 1 - ptr_mask)

-- The date is refreshed, and a line is logged at a level. `file` is `__FILE__`.
unfoldable pub log_ts : List ℕ → List ℕ → List ℕ → List ℕ → ℕ → App → App
log_ts file level line msg now app =
    let ts = datetime_str app.ts_buf now in
    record app { ts_buf = ts; log = app.log ++ Log.write_ts ts level file line msg ∷ [] }
