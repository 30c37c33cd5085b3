-- ===== src/UserDb.antt =====
-- src/data/cg_userdb.c and include/data/cg_userdb.h: the pool of user accounts. A pointer into the
-- pool is the index of its entry. The system calls come in as their results.
pub mod Invariant
pub mod Create
pub mod Names
pub mod Remove
use compuguessr.Base.{
  ℕ, zero, suc, ◌+◌, ◌-◌, ◌^◌, Bool, true, false, ◌&&◌, not, Option, none, some, List, length, take,
  get_or, set, replicate, ◌==◌, ltb, if◌then◌else◌,
}
use compuguessr.Base.Search.{find_index}
use compuguessr.Base.Text.{c_str, write_str}
use compuguessr.Base.Words.{u32}
use compuguessr.Util.Hash.{Crc, hash_str}
use compuguessr.Util.Memory.{same_str}

abbrev pub pool_size : ℕ
pool_size = 1024

abbrev pub magic_bytes : ℕ
magic_bytes = 0x53524553555F4743

pub record Header : Type 0 where
  pub magic : ℕ
  pub version : ℕ
  pub count : ℕ

pub record UserEntry : Type 0 where
  pub id : ℕ
  pub username : List ℕ
  pub description : List ℕ
  pub pass_hash : ℕ
  pub total_points : ℕ
  pub completed_count : ℕ
  pub completed_hashes : List ℕ
  pub is_active : ℕ

pub record UserDb : Type 0 where
  pub hdr : Header
  pub pool : List UserEntry

abbrev pub zero_entry : UserEntry
zero_entry = record {
  id = 0;
  username = replicate 32 0;
  description = replicate 2048 0;
  pass_hash = 0;
  total_points = 0;
  completed_count = 0;
  completed_hashes = replicate 32 0;
  is_active = 0;
}

-- `memset` and the header of a new file.
abbrev pub new_file : UserDb
new_file = record {
  hdr = record { magic = magic_bytes; version = 1; count = 0 };
  pool = replicate pool_size zero_entry;
}

-- From what `open`, `fstat` and `mmap` gave: `none` for a failed `open` or `mmap`, else the size of
-- the file and the memory that is mapped.
unfoldable pub init : Option (ℕ × UserDb) → Option UserDb
init none = none
init (some (st_size, db)) =
    if st_size == 0
    then some new_file
    else if not (db.hdr.magic == magic_bytes)
    then none
    else some db

abbrev pub is_idle : UserEntry → Bool
is_idle e = e.is_active == 0

abbrev pub is_named : List ℕ → UserEntry → Bool
is_named username e = not (is_idle e) && same_str e.username username

abbrev pub has_id : ℕ → UserEntry → Bool
has_id id e = not (is_idle e) && e.id == id

abbrev pub find : UserDb → List ℕ → Option ℕ
find db username = find_index (is_named username) db.pool

abbrev pub find_by_id : UserDb → ℕ → Option ℕ
find_by_id db id = find_index (has_id id) db.pool

-- The result of `cg_userdb_create`; `out` is the copy, where one is made.
pub record Created : Type 0 where
  pub code : ℕ
  pub db : UserDb
  pub out : Option UserEntry

-- The name as it is stored: 31 bytes at most.
abbrev pub cut_name : List ℕ → List ℕ
cut_name username =
    let name = c_str username in
    let len = if ltb 31 (length name) then 31 else length name in take len name

module _ (hw : Crc) where
  -- The entry that `cg_userdb_create` writes over place `i`.
  unfoldable pub registered : UserEntry → ℕ → List ℕ → List ℕ → UserEntry
  registered old i username password = record {
    id = i + 1;
    username = write_str old.username (cut_name username);
    description = replicate 2048 0;
    pass_hash = hash_str hw (c_str password);
    total_points = 0;
    completed_count = 0;
    completed_hashes = replicate 32 0;
    is_active = 1;
  }

  abbrev pub register : UserDb → ℕ → List ℕ → List ℕ → Bool → Created
  register db i username password has_out =
      let hdr = db.hdr in
      let entry = registered (get_or db.pool i zero_entry) i username password in
      record {
        code = 0;
        db = record {
          hdr = record hdr { count = u32 (hdr.count + 1) };
          pool = set db.pool i entry;
        };
        out = if has_out then some entry else none;
      }

  -- With the place that the second loop found.
  unfoldable pub register_at : UserDb → Option ℕ → List ℕ → List ℕ → Bool → Created
  register_at db (some i) username password has_out = register db i username password has_out
  register_at db none username password has_out = record { code = 2; db = db; out = none }

  -- `has_out`: whether the pointer `out` is not null.
  unfoldable pub create : UserDb → List ℕ → List ℕ → Bool → Created
  unfolding register_at
  create db username password has_out = elim (find db username) [
    | some _ ↦ record { code = 1; db = db; out = none }
    | none ↦ register_at db (find_index is_idle db.pool) username password has_out
  ]

-- With the entry that `cg_userdb_find_by_id` returned.
unfoldable pub delete_at : UserDb → Option ℕ → ℕ × UserDb
delete_at db none = (1, db)
delete_at db (some i) =
    let entry = get_or db.pool i zero_entry in
    let hdr = db.hdr in
    let count = if ltb 0 hdr.count then hdr.count - 1 else hdr.count in
    if not (is_idle entry)
    then (
      0,
      record {
        hdr = record hdr { count = count };
        pool = set db.pool i (record entry { is_active = 0 });
      },
    )
    else (1, db)

-- The result and the database of `cg_userdb_delete`.
unfoldable pub delete : UserDb → ℕ → ℕ × UserDb
unfolding delete_at
delete db id = delete_at db (find_by_id db id)
