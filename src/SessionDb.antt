-- ===== src/SessionDb.antt =====
-- src/data/cg_sessiondb.c and include/data/cg_sessiondb.h: the pool of sessions and the hashmap
-- from session ids to pool indices. `map_entries`, to which `map.entries` points, is the list in
-- `map`. The system calls come in as their results; one process works on the file, so the
-- compare-and-exchange of a flag that was just read as 0 succeeds.
pub mod Invariant
pub mod Create
pub mod Remove
use compuguessr.Base.{
  ℕ, ◌+◌, ◌-◌, ◌^◌, Bool, true, false, ◌&&◌, not, Option, none, some, List, Run, ok, fail, ◌>>=◌,
  bit_and, get_or, set, replicate, ◌==◌, ltb, leb, if◌then◌else◌,
}
use compuguessr.Base.Search.{find_index}
use compuguessr.Base.Words.{u32, sub_u32}
use compuguessr.Hashmap.{Map, blank, get_key_uint, insert_key_uint, delete_key_uint}
use compuguessr.Util.Hash.{hash_uint64}

abbrev pub pool_size : ℕ
pool_size = 4096

abbrev pub magic_bytes : ℕ
magic_bytes = 0x47535345535F4743

pub record Header : Type 0 where
  pub magic : ℕ
  pub version : ℕ
  pub entry_count : ℕ
  pub entry_size : ℕ

pub record SessionEntry : Type 0 where
  pub session_id : ℕ
  pub user_id : ℕ
  pub creation_timestamp : ℕ
  pub last_seen_timestamp : ℕ
  pub is_active : ℕ
  pub flags : ℕ

pub record SessionDb : Type 0 where
  pub hdr : Header
  pub map : Map
  pub pool : List SessionEntry

abbrev pub zero_entry : SessionEntry
zero_entry = record {
  session_id = 0;
  user_id = 0;
  creation_timestamp = 0;
  last_seen_timestamp = 0;
  is_active = 0;
  flags = 0;
}

-- What `open`, `fstat` and `mmap` gave: `none` for a failed `open` or `mmap`, else the size of
-- the file and the memory that is mapped.
abbrev pub Mapped : Type 0
Mapped = Option (ℕ × SessionDb)

-- `memset` and the header of a new file; `sizeof(struct cg_sessiondb_entry)` is 24.
abbrev pub new_file : SessionDb
new_file = record {
  hdr = record { magic = magic_bytes; version = 1; entry_count = 0; entry_size = 24 };
  map = record { entries = replicate pool_size blank; capacity = 0; count = 0 };
  pool = replicate pool_size zero_entry;
}

-- The volatile part of the map, set on every start.
abbrev pub attach : SessionDb → SessionDb
attach db =
    let m = db.map in
    record db { map = record m { capacity = pool_size; count = db.hdr.entry_count } }

unfoldable pub init : Mapped → Option SessionDb
init none = none
init (some (st_size, db)) =
    if st_size == 0
    then some (attach new_file)
    else if not (db.hdr.magic == magic_bytes)
    then none
    else some (attach db)

-- What `getrandom` returned, with the bytes that it wrote; `failed` is a negative result.
pub data Draw : Type 0 where
  drawn : ℕ → ℕ → Draw
  failed : Draw

unfoldable pub session_id_get : Draw → ℕ
session_id_get failed = 0
session_id_get (drawn res id) = if ltb res 8 then 0 else if id == 0 then 1 else id

unfoldable pub index_get : ℕ → ℕ
index_get sid = u32 (bit_and (hash_uint64 sid) (pool_size - 1))

-- `&db->pool[hentry->val.addr]`, as the index.
unfoldable pub entry_get : SessionDb → ℕ → Run (Option ℕ)
entry_get db sid = get_key_uint db.map sid >>= λ hentry. elim hentry [
  | none ↦ ok none
  | some i ↦
      let e = get_or db.map.entries i blank in if e.occupied == 0 then ok none else ok (some e.val)
]

-- The result of `cg_sessiondb_entry_create`; `out` is the copy, where one is made.
pub record Created : Type 0 where
  pub code : ℕ
  pub db : SessionDb
  pub out : Option SessionEntry

abbrev pub is_free : SessionEntry → Bool
is_free e = e.is_active == 0

abbrev pub claimed : ℕ → ℕ → ℕ → SessionEntry
claimed sid uid now = record {
  session_id = sid;
  user_id = uid;
  creation_timestamp = u32 now;
  last_seen_timestamp = u32 now;
  is_active = 1;
  flags = 0;
}

unfoldable pub store : SessionDb → ℕ → SessionEntry → Run Created
store db i entry = insert_key_uint db.map entry.session_id i >>= λ m.
    let hdr = db.hdr in
    ok (record {
      code = 0;
      db = record {
        hdr = record hdr { entry_count = u32 (hdr.entry_count + 1) };
        map = m;
        pool = set db.pool i entry;
      };
      out = some entry;
    })

unfoldable pub entry_create : SessionDb → ℕ → Draw → ℕ → Run Created
entry_create db uid draw now =
    let refuse : Created = record { code = 1; db = db; out = none } in
    if leb pool_size db.map.count
    then ok refuse
    else let sid = session_id_get draw in
      if sid == 0 then ok refuse else elim (find_index is_free db.pool) [
        | none ↦ ok refuse
        | some i ↦ store db i (claimed sid uid now)
      ]

unfoldable pub entry_delete : SessionDb → ℕ → Run SessionDb
entry_delete db sid = entry_get db sid >>= λ found. elim found [
  | none ↦ ok db
  | some i ↦ delete_key_uint db.map sid >>= λ m.
      let hdr = db.hdr in
      let entry = get_or db.pool i zero_entry in
      ok (record {
        hdr = record hdr { entry_count = sub_u32 hdr.entry_count 1 };
        map = m;
        pool = set db.pool i (record entry { is_active = 0 });
      })
]
