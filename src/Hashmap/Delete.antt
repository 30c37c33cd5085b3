-- ===== src/Hashmap/Delete.antt =====
-- `cg_hashmap_delete_key_uint` clears one key, and a fresh table is the empty map.
use compuguessr.Base.{
  ℕ, zero, suc, ◌+◌, ◌*◌, ◌<◌, ◌≡◌, refl, inl, inr, Bool, true, none, some, List, Returns, arith,
  replicate, length-replicate, get_or-replicate, ◌==◌, if◌then◌else◌, Bool-cases, Option-cases,
}
use compuguessr.Base.Search.{
  count_if, count_if-set, count_if_pos, count_if_le, to_ℕ, find_index_of_none,
}
use compuguessr.Base.Words.{sub_u32}
use compuguessr.Hashmap.{Entry, Map, blank, matches, delete_key_uint, bury}
use compuguessr.Hashmap.Probe.{IsSize, home-lt, size_pos}
use compuguessr.Hashmap.Lookup.{
  slot, scan, view, Placed, IsValid, is_live, is_vacant, get_key_uint-scan, is_empty_of_pos,
}
use compuguessr.Hashmap.Update.{scan_found, Placed-written, view_written}

-- What a call that deletes `key` does to the map.
pub record Deletes (m : Map) (key : ℕ) (m' : Map) : Type 0 where
  pub valid : IsValid m'
  pub same_size : m'.capacity ≡ m.capacity
  pub reads : (q : ℕ) → view m' q ≡ (if q == key then none else view m q)
  pub counts : m'.count + (elim (view m key) [ none ↦ 0 | some _ ↦ 1 ]) ≡ m.count
  pub fills : count_if is_vacant m'.entries ≡ count_if is_vacant m.entries

module _ (m : Map) (key : ℕ) (v : IsValid m) where
  abbrev n : ℕ
  n = m.capacity

  abbrev es : List Entry
  es = m.entries

  module _ (i : ℕ) (e : scan key es ≡ some i) where
    abbrev buried : Entry
    buried = let s = slot es i in record s { occupied = 2 }

    found : (i < n) × (matches key (slot es i) ≡ true)
    found = scan_found n v.size es v.placed key i e

    bury-Placed : Placed n (bury es i)
    bury-Placed =
        Placed-written n v.size es v.placed i found.0 buried (λ z. ground arith)
          (λ live. absurd (ground arith)) (λ live. absurd (ground arith))

    changes :
        (test : Entry → Bool)
        → count_if test (bury es i) + to_ℕ (test (slot es i))
          ≡ count_if test es + to_ℕ (test buried)
    changes test = count_if-set test blank es i buried (omega (arith, found.0, v.placed.len))

    some_live : 0 < m.count
    some_live = rw v.counted (
        count_if_pos is_live blank es i (omega (arith, found.0, v.placed.len))
          (ground (arith, found)))

    bury-Deletes : Deletes m key (record m { entries = bury es i; count = sub_u32 m.count 1 })
    unfolding view
    bury-Deletes = record {
      valid = record {
        size = v.size;
        placed = bury-Placed;
        vacancy = ground (arith, changes is_vacant, found, v.vacancy);
        counted = ground (
          arith,
          changes is_live,
          found,
          v.counted,
          some_live,
          count_if_le is_live es,
          v.placed.len,
          v.size.fits,
        );
      };
      same_size = refl;
      reads = λ q.
          ground (arith, found, view_written n v.size es v.placed i found.0 buried bury-Placed q);
      counts =
          rw e (
            omega (arith, some_live, v.counted, count_if_le is_live es, v.placed.len, v.size.fits));
      fills = ground (arith, changes is_vacant, found);
    }

  miss-Deletes : scan key es ≡ none → Deletes m key m
  unfolding view
  miss-Deletes absent = record {
    valid = v;
    same_size = refl;
    reads = λ q. elim (Bool-cases (q == key)) [
      | inr other ↦ rw other refl
      | inl same ↦ let q_key : q ≡ key = ground arith in rw (q_key, absent) (ground arith)
    ];
    counts = rw absent (omega arith);
    fills = refl;
  }

  -- A deletion from a valid map ends inside the array. It leaves a valid map in which the key is
  -- gone and every other key reads as before; the count falls by one exactly if the key was
  -- there, and no slot becomes unused again.
  pub delete_key_uint-Deletes : Returns (delete_key_uint m key) (Deletes m key)
  unfolding delete_key_uint
  delete_key_uint-Deletes =
      rw
        (
          is_empty_of_pos es (omega (arith, v.placed.len, home-lt n v.size key)),
          get_key_uint-scan m key v,
        )
        (elim (Option-cases (scan key es)) [
          | inl absent ↦ rw absent (m, refl, miss-Deletes absent)
          | inr (i, e) ↦ rw e (_, refl, bury-Deletes i e)
        ])

-- An array of zeroed slots, as in fresh memory.
abbrev pub fresh : ℕ → Map
fresh n = record { entries = replicate n blank; capacity = n; count = 0 }

count_if-replicate :
    (test : Entry → Bool) (n : ℕ) → count_if test (replicate n blank) ≡ n * to_ℕ (test blank)
unfolding count_if replicate
count_if-replicate test zero = omega arith
count_if-replicate test (suc n) = grind (arith, count_if-replicate test n)

-- Zeroed memory of a size that fits is the empty map, and all of its slots are unused.
pub fresh-IsValid :
    (n : ℕ)
    → IsSize n
    → IsValid (fresh n)
      × ((q : ℕ) → view (fresh n) q ≡ none)
      × (count_if is_vacant (fresh n).entries ≡ n)
unfolding view
fresh-IsValid n size = (
  record {
    size = size;
    placed = record {
      len = length-replicate n blank;
      reach = λ i d lt live. absurd (ground (arith, get_or-replicate n i blank));
      distinct = λ i j i_lt j_lt live. absurd (ground (arith, get_or-replicate n i blank));
    };
    vacancy = omega (arith, count_if-replicate is_vacant n, size_pos n size);
    counted = omega (arith, count_if-replicate is_live n);
  },
  (λ q. rw (
      find_index_of_none (matches q) blank (replicate n blank)
        (λ j lt. rw (get_or-replicate n j blank) refl))),
  omega (arith, count_if-replicate is_vacant n),
)
