-- ===== src/SessionDb/Invariant.antt =====
-- When a session database is well formed, the sessions that it holds, and its start.
use compuguessr.Base.{
  ℕ, zero, suc, ◌<◌, ◌≡◌, refl, ◌≢◌, inl, inr, Bool, true, false, not, Option, none, some, ok,
  arith, length, get_or, length-replicate, get_or-replicate, replicate, ◌==◌, Option-cases,
}
use compuguessr.Base.Search.{count_if}
use compuguessr.Hashmap.Probe.{IsSize}
use compuguessr.Hashmap.Lookup
use compuguessr.Hashmap.Lookup.{slot, scan, view, get_key_uint-scan, is_vacant}
use compuguessr.Hashmap.Update.{scan_found}
use compuguessr.Hashmap.Delete.{fresh-IsValid}
use compuguessr.SessionDb.{
  SessionDb, SessionEntry, pool_size, magic_bytes, zero_entry, is_free, entry_get, init, new_file,
  attach,
}
use mathlib.Core.Option

abbrev pub entry_at : SessionDb → ℕ → SessionEntry
entry_at db i = get_or db.pool i zero_entry

abbrev pub is_active : SessionEntry → Bool
is_active e = not (is_free e)

-- The map leads from the id of each active entry to that entry, and to nothing else.
pub record IsValid (db : SessionDb) : Type 0 where
  pub map_valid : Lookup.IsValid db.map
  pub sized : db.map.capacity ≡ pool_size
  pub pooled : length db.pool ≡ pool_size
  pub ties :
      (sid i : ℕ)
      → view db.map sid ≡ some i
      → (i < pool_size) × ((entry_at db i).session_id ≡ sid) × (is_free (entry_at db i) ≡ false)
  pub owned :
      (i : ℕ)
      → i < pool_size
      → is_free (entry_at db i) ≡ false
      → view db.map (entry_at db i).session_id ≡ some i
  pub counted : db.hdr.entry_count ≡ db.map.count
  pub actives : count_if is_active db.pool ≡ db.map.count

-- The abstract database: from session ids to entries.
unfoldable pub session : SessionDb → ℕ → Option SessionEntry
session db sid = Option.map (entry_at db) (view db.map sid)

-- On a valid database the lookup of any id ends, at the pool index that the map holds for it.
pub entry_get-view :
    (db : SessionDb) (sid : ℕ) → IsValid db → entry_get db sid ≡ ok (view db.map sid)
unfolding entry_get view
entry_get-view db sid v =
    rw (get_key_uint-scan db.map sid v.map_valid) (elim (Option-cases (scan sid db.map.entries)) [
      | inl e ↦ rw e refl
      | inr (i, e) ↦
          let f =
            scan_found db.map.capacity v.map_valid.size db.map.entries v.map_valid.placed sid i e in
          rw e (ground (arith, f))
    ])

IsSize-4096 : IsSize pool_size
IsSize-4096 = record { log = 12; power = refl; fits = omega arith }

count_if-zeroes : (n : ℕ) → count_if is_active (replicate n zero_entry) ≡ 0
unfolding count_if replicate
count_if-zeroes zero = refl
count_if-zeroes (suc n) = omega (arith, count_if-zeroes n)

unfoldable pub empty : SessionDb
empty = attach new_file

pub empty-IsValid : IsValid empty
unfolding empty
empty-IsValid =
    let (valid, nothing, unused) = fresh-IsValid pool_size IsSize-4096 in
    record {
      map_valid = valid;
      sized = refl;
      pooled = length-replicate pool_size zero_entry;
      ties = λ sid i e. absurd (ground (arith, nothing sid));
      owned = λ i lt e. absurd (ground (arith, get_or-replicate pool_size i zero_entry));
      counted = refl;
      actives = count_if-zeroes pool_size;
    }

pub empty-unused : count_if is_vacant empty.map.entries ≡ pool_size
unfolding empty
empty-unused = (fresh-IsValid pool_size IsSize-4096).2

-- Started on an empty file, the database is valid, holds no session and has all of its slots
-- unused.
pub init-new :
    (db : SessionDb)
    → (new : SessionDb) × (init (some (0, db)) ≡ some new)
      × IsValid new
      × ((sid : ℕ) → session new sid ≡ none)
      × (count_if is_vacant new.map.entries ≡ pool_size)
unfolding init empty session
init-new db = (
  empty,
  refl,
  empty-IsValid,
  (λ sid. rw ((fresh-IsValid pool_size IsSize-4096).1 sid)),
  empty-unused,
)

-- A restart on the file that a valid database left gives that database back, whatever the
-- capacity and count of the map were in the file.
pub init-restart :
    (db : SessionDb) (st_size capacity count : ℕ)
    → IsValid db
    → st_size ≢ 0
    → db.hdr.magic ≡ magic_bytes
    → let m = db.map in
      init (some (st_size, record db { map = record m { capacity = capacity; count = count } }))
      ≡ some db
unfolding init
init-restart db st_size capacity count v nonempty magic =
    let seen : st_size == 0 ≡ false = ground arith in
    let right : db.hdr.magic == magic_bytes ≡ true = ground arith in
    rw (seen, right) (ground (arith, v.sized, v.counted))
