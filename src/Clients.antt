-- ===== src/Clients.antt =====
-- src/core/cg_client.c and include/core/cg_client.h: the pool of clients, with the part of a client
-- that `cg_fastcgi_client_init` of src/core/cg_fastcgi.c sets. A pointer to a client is its index.
pub mod Pool
use compuguessr.Base.{
  ℕ, zero, suc, ◌+◌, ◌-◌, ◌≤◌, ◌<◌, ◌≡◌, Bool, true, false, Option, none, some, List, [], ◌∷◌,
  length, get_or, set, replicate, ltb, if◌then◌else◌,
}
use compuguessr.Base.Int.{ℤ, pos, negsuc}
use compuguessr.Base.Search.{find_index}
use compuguessr.Fastcgi.Parse.{Buffer}
use compuguessr.Fastcgi.Record.{Header}
use compuguessr.Request.{Request}

pub data ClientState : Type 0 where
  free_state in_use : ClientState

abbrev pub record_max_size : ℕ
record_max_size = 65790

-- `state` is the number of the enumerator. The memory of both buffers is in their records.
pub record FastcgiClient : Type 0 where
  pub state : ℕ
  pub saved_hdr : Header
  pub sockfd : ℤ
  pub rx : Buffer
  pub tx : Buffer

pub record Client : Type 0 where
  pub state : ClientState
  pub fcgi : FastcgiClient
  pub req : Request

abbrev pub empty_buffer : Buffer → Buffer
empty_buffer b = record b { len = record_max_size; valid = 0; pos = 0 }

unfoldable pub client_init : FastcgiClient → FastcgiClient
client_init ctx = record ctx {
  state = 0;
  sockfd = negsuc 0;
  rx = empty_buffer ctx.rx;
  tx = empty_buffer ctx.tx;
}

-- The loop over the first `count` clients.
unfoldable pub pool_init : ℕ → List Client → List Client
unfolding client_init
pool_init (suc count) (c ∷ cs) =
    record c { state = free_state; fcgi = client_init c.fcgi } ∷ pool_init count cs
pool_init _ cs = cs

abbrev pub is_free : Client → Bool
is_free c = elim c.state [ free_state ↦ true | in_use ↦ false ]

abbrev pub put_state : List Client → ℕ → ClientState → List Client
put_state [] i s = []
put_state (c ∷ cs) zero s = record c { state = s } ∷ cs
put_state (c ∷ cs) (suc i) s = c ∷ put_state cs i s

-- The client, and the pool.
abbrev pub alloc_at : List Client → Option ℕ → Option ℕ × List Client
alloc_at pool none = (none, pool)
alloc_at pool (some i) = (some i, put_state pool i in_use)

unfoldable pub alloc : List Client → Option ℕ × List Client
alloc pool = alloc_at pool (find_index is_free pool)

-- `none` is the null pointer.
unfoldable pub free : List Client → Option ℕ → List Client
free pool none = pool
free pool (some i) = put_state pool i free_state
