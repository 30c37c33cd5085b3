-- ===== src/Hashmap.antt =====
-- src/data/cg_hashmap.c: open addressing with linear probing and tombstones. A null `entries`
-- is the empty list; a pointer to an entry is its index. `count` and `occupied` are as in
-- include/data/cg_hashmap.h.
pub mod Probe
pub mod Insert
pub mod Lookup
pub mod Update
pub mod Delete
pub mod Full
use compuguessr.Base.{
  ℕ, zero, suc, ◌+◌, ◌-◌, ◌^◌, bit_and, Bool, true, false, ◌&&◌, ◌||◌, Option, none, some, List,
  Run, ok, fail, out_of_bounds, no_fuel, ◌>>=◌, is_empty, get_elem?, get_or, set, ◌==◌,
  if◌then◌else◌,
}
use compuguessr.Base.Words.{u32, sub_u32}
use compuguessr.Util.Hash.{hash_uint64, Crc, hash_str}

-- `val` is the bits of the `cg_ptr` union. `occupied`: 0 never used, 1 live, 2 deleted.
pub record Entry : Type 0 where
  pub key : ℕ
  pub val : ℕ
  pub occupied : ℕ

pub record Map : Type 0 where
  pub entries : List Entry
  pub capacity : ℕ
  pub count : ℕ

abbrev pub at : List Entry → ℕ → Run Entry
at es i = elim (get_elem? es i) [ none ↦ fail out_of_bounds | some e ↦ ok e ]

abbrev pub matches : ℕ → Entry → Bool
matches key e = e.occupied == 1 && e.key == key

abbrev pub start : ℕ → ℕ → ℕ
start mask key = u32 (bit_and (hash_uint64 key) mask)

abbrev pub next : ℕ → ℕ → ℕ
next mask idx = bit_and (u32 (idx + 1)) mask

-- The loop of `cg_hashmap_get_key_uint`.
unfoldable pub probe : List Entry → ℕ → ℕ → ℕ → ℕ → Run (Option ℕ)
probe es mask key zero idx = fail no_fuel
probe es mask key (suc fuel) idx = do
  e ← at es idx
  let rest = probe es mask key fuel (next mask idx)
  if e.occupied == 0 then ok none else if matches key e then ok (some idx) else rest

-- One round for each slot is enough: after that the probe is back where it began.
unfoldable pub get_key_uint : Map → ℕ → Run (Option ℕ)
get_key_uint m key =
    if is_empty m.entries || m.capacity == 0
    then ok none
    else let mask = sub_u32 m.capacity 1 in probe m.entries mask key m.capacity (start mask key)

-- The loop of `cg_hashmap_insert_key_uint`: past the live entries.
unfoldable pub free_slot : List Entry → ℕ → ℕ → ℕ → Run ℕ
free_slot es mask zero idx = fail no_fuel
free_slot es mask (suc fuel) idx = do
  e ← at es idx
  let rest = free_slot es mask fuel (next mask idx)
  if e.occupied == 1 then rest else ok idx

abbrev pub blank : Entry
blank = record { key = 0; val = 0; occupied = 0 }

-- `existing->val = val`
abbrev pub write_val : List Entry → ℕ → ℕ → List Entry
write_val es i val = let e = get_or es i blank in set es i (record e { val = val })

unfoldable pub insert_new : Map → ℕ → ℕ → Run Map
insert_new m key val = do
  let mask = sub_u32 m.capacity 1
  idx ← free_slot m.entries mask m.capacity (start mask key)
  ok (record m {
    entries = set m.entries idx (record { key = key; val = val; occupied = 1 });
    count = u32 (m.count + 1);
  })

unfoldable pub insert_key_uint : Map → ℕ → ℕ → Run Map
insert_key_uint m key val =
    if is_empty m.entries
    then ok m
    else get_key_uint m key >>= λ existing. elim existing [
      | some i ↦ ok (record m { entries = write_val m.entries i val })
      | none ↦ insert_new m key val
    ]

-- `entry->occupied = 2`
abbrev pub bury : List Entry → ℕ → List Entry
bury es i = let e = get_or es i blank in set es i (record e { occupied = 2 })

unfoldable pub delete_key_uint : Map → ℕ → Run Map
delete_key_uint m key =
    if is_empty m.entries
    then ok m
    else get_key_uint m key >>= λ entry. elim entry [
      | some i ↦ ok (record m { entries = bury m.entries i; count = sub_u32 m.count 1 })
      | none ↦ ok m
    ]

module _ (hw : Crc) where
  unfoldable pub get_key_str : Map → List ℕ → Run (Option ℕ)
  get_key_str m key = get_key_uint m (hash_str hw key)

  unfoldable pub insert_key_str : Map → List ℕ → ℕ → Run Map
  insert_key_str m key val = insert_key_uint m (hash_str hw key) val
