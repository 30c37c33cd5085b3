-- ===== src/Hashmap/Insert.antt =====
-- `cg_hashmap_insert_key_uint` updates the map at one key.
use compuguessr.Base.{
  ℕ, zero, suc, ◌+◌, ◌-◌, ◌≤◌, ◌<◌, ◌≡◌, refl, sym, ap, ◌≢◌, inl, inr, Bool, true, false, none,
  some, List, [], ◌∷◌, Run, ok, fail, no_fuel, Returns, arith, length, get_elem?-eq-get_or, set,
  ◌==◌, if◌then◌else◌, Bool-cases, Option-cases,
}
use compuguessr.Base.Search.{count_if, count_if-set, to_ℕ}
use compuguessr.Base.Words.{u32}
use compuguessr.Hashmap.{
  Entry, Map, blank, matches, at, free_slot, insert_new, insert_key_uint, write_val,
}
use compuguessr.Hashmap.Probe.{
  IsSize, ring, dist, home, ring-lt, dist-ring, home-lt, next_lem, start_lem,
}
use compuguessr.Hashmap.Lookup.{
  slot, scan, view, Placed, IsValid, is_live, is_vacant, get_key_uint-scan, is_empty_of_pos,
  mask-capacity, not_lost,
}
use compuguessr.Hashmap.Update.{scan_found, scan_absent, Placed-written, view_written}
use native.Mathlib.Decide.{dec_lt}

module _ (n : ℕ) (size : IsSize n) (es : List Entry) (len : length es ≡ n) (h : ℕ)
    (h_lt : h < n) where
  abbrev IsLiveAt : ℕ → Type 0
  IsLiveAt d = (slot es (ring n h d)).occupied ≡ 1

  data Freed (r : Run ℕ) : Type 0 where
    found :
        (d : ℕ)
        → d < n
        → (slot es (ring n h d)).occupied ≢ 1
        → ((d' : ℕ) → d' < d → IsLiveAt d')
        → r ≡ ok (ring n h d)
        → Freed r
    full : ((d : ℕ) → d < n → IsLiveAt d) → r ≡ fail no_fuel → Freed r

  live-suc :
      (d : ℕ) → ((d' : ℕ) → d' < d → IsLiveAt d') → IsLiveAt d → (d' : ℕ) → d' < suc d → IsLiveAt d'
  live-suc d before now d' lt = elim (dec_lt d' d) [
    | yes p ↦ before d' p
    | no p ↦ let same : d' ≡ d = omega arith in rw same now
  ]

  free_slot-Freed :
      (fuel d : ℕ)
      → d + fuel ≡ n
      → ((d' : ℕ) → d' < d → IsLiveAt d')
      → Freed (free_slot es (n - 1) fuel (ring n h d))
  unfolding free_slot
  free_slot-Freed zero d e before = full (λ d' lt. before d' (omega arith)) refl
  free_slot-Freed (suc fuel) d e before =
      let s = slot es (ring n h d) in
      let inside : ring n h d < n = ring-lt n h d h_lt (omega arith) in
      rw (get_elem?-eq-get_or es (ring n h d) blank (omega arith), at)
        (elim (Bool-cases (s.occupied == 1)) [
          | inl live ↦
              rw (live, next_lem n size h d h_lt (omega arith))
                (free_slot-Freed fuel (suc d) (omega arith) (live-suc d before (ground arith)))
          | inr free ↦ rw free (found d (omega arith) (λ z. ground arith) before refl)
        ])

  free_slot_all : Freed (free_slot es (n - 1) n h)
  free_slot_all =
      let at_home : ring n h 0 ≡ h = ground arith in
      rw at_home at (free_slot-Freed n 0 (omega arith) (λ d lt. absurd (omega arith)))

pub live_vacant_bound : (es : List Entry) → count_if is_live es + count_if is_vacant es ≤ length es
unfolding count_if
live_vacant_bound [] = omega arith
live_vacant_bound (e ∷ es) = ground (arith, live_vacant_bound es)

-- What a call that writes `val` at `key` does to the map.
pub record Inserts (m : Map) (key val : ℕ) (m' : Map) : Type 0 where
  pub valid : IsValid m'
  pub same_size : m'.capacity ≡ m.capacity
  pub reads : (q : ℕ) → view m' q ≡ (if q == key then some val else view m q)
  pub counts : m'.count ≡ m.count + (elim (view m key) [ none ↦ 1 | some _ ↦ 0 ])
  pub fills : count_if is_vacant m.entries ≤ count_if is_vacant m'.entries + 1

module _ (m : Map) (key val : ℕ) (v : IsValid m) where
  abbrev n : ℕ
  n = m.capacity

  abbrev es : List Entry
  es = m.entries

  module _ (i : ℕ) (e : scan key es ≡ some i) where
    abbrev updated : Entry
    updated = let s = slot es i in record s { val = val }

    existing : (i < n) × (matches key (slot es i) ≡ true)
    existing = scan_found n v.size es v.placed key i e

    existing_live : (slot es i).occupied ≡ 1
    existing_live = ground (arith, existing)

    update-Placed : Placed n (write_val es i val)
    update-Placed =
        Placed-written n v.size es v.placed i existing.0 updated
          (λ z. ground (arith, existing_live)) (λ live d lt. v.placed.reach i d existing.0 live lt)
          (λ live j j_lt ne j_live same.
            ne (v.placed.distinct i j existing.0 j_lt live j_live (sym same)))

    counts_same :
        (test : Entry → Bool)
        → test updated ≡ test (slot es i)
        → count_if test (write_val es i val) ≡ count_if test es
    counts_same test same = omega (
      arith,
      count_if-set test blank es i updated (omega (arith, existing.0, v.placed.len)),
      ap to_ℕ same,
    )

    update-Inserts : Inserts m key val (record m { entries = write_val es i val })
    unfolding view
    update-Inserts = record {
      valid = record {
        size = v.size;
        placed = update-Placed;
        vacancy = rw (counts_same is_vacant refl) v.vacancy;
        counted = rw (counts_same is_live refl) v.counted;
      };
      same_size = refl;
      reads = λ q.
          ground (
            arith,
            existing,
            view_written n v.size es v.placed i existing.0 updated update-Placed q,
          );
      counts = rw e (omega arith);
      fills = rw (counts_same is_vacant refl) (omega arith);
    }

  module _ (absent : scan key es ≡ none) (roomy : 1 < count_if is_vacant es) (d : ℕ) (d_lt : d < n)
      (free : (slot es (ring n (home n key) d)).occupied ≢ 1)
      (before : (d' : ℕ) → d' < d → (slot es (ring n (home n key) d')).occupied ≡ 1) where
    abbrev target : ℕ
    target = ring n (home n key) d

    abbrev added : Entry
    added = record { key = key; val = val; occupied = 1 }

    target_lt : target < n
    target_lt = ring-lt n (home n key) d (home-lt n v.size key) d_lt

    target-dist : dist n (home n key) target ≡ d
    target-dist = dist-ring n (home n key) d (home-lt n v.size key) d_lt

    insert-Placed : Placed n (set es target added)
    insert-Placed =
        Placed-written n v.size es v.placed target target_lt added (λ z. ground arith)
          (λ live d' lt. let b = before d' (rw target-dist at lt) in λ z. ground arith)
          (λ live j j_lt ne j_live same.
            ground (arith, scan_absent n v.size es v.placed key absent j))

    changes :
        (test : Entry → Bool)
        → count_if test (set es target added) + to_ℕ (test (slot es target))
          ≡ count_if test es + to_ℕ (test added)
    changes test = count_if-set test blank es target added (omega (arith, target_lt, v.placed.len))

    target_free : is_live (slot es target) ≡ false
    target_free = ground arith

    live_bound : m.count < n
    live_bound = omega (arith, v.counted, v.placed.len, live_vacant_bound es)

    insert_new-Inserts :
        Inserts m key val (record m { entries = set es target added; count = u32 (m.count + 1) })
    unfolding view
    insert_new-Inserts = record {
      valid = record {
        size = v.size;
        placed = insert-Placed;
        vacancy = ground (arith, changes is_vacant);
        counted = ground (arith, changes is_live, target_free, v.counted, v.size.fits, live_bound);
      };
      same_size = refl;
      reads = λ q. ground (
        arith,
        target_free,
        view_written n v.size es v.placed target target_lt added insert-Placed q,
      );
      counts = rw absent (omega (arith, v.size.fits, live_bound));
      fills = ground (arith, changes is_vacant);
    }

  insert_new_lem :
      scan key es ≡ none
      → 1 < count_if is_vacant es
      → Returns (insert_new m key val) (Inserts m key val)
  unfolding insert_new
  insert_new_lem absent roomy =
      rw (mask-capacity n v.size, start_lem n v.size key)
        (elim (free_slot_all n v.size es v.placed.len (home n key) (home-lt n v.size key)) [
          | found d d_lt free before e ↦
              (_, rw e refl, insert_new-Inserts absent roomy d d_lt free before)
          | full all e ↦ absurd (
              not_lost n v.size es v.placed key v.vacancy
                (λ d lt. let a = all d lt in λ z. ground arith))
        ])

  -- With an unused slot to spare, or with the key present, an insertion into a valid map ends
  -- inside the array. It leaves a valid map of the same size in which the key reads as the new
  -- value and every other key as before; the count grows by one exactly if the key is new, and
  -- at most one unused slot is taken.
  pub insert_key_uint-Inserts :
      (view m key ≡ none → 1 < count_if is_vacant es)
      → Returns (insert_key_uint m key val) (Inserts m key val)
  unfolding insert_key_uint view
  insert_key_uint-Inserts roomy =
      rw
        (
          is_empty_of_pos es (omega (arith, v.placed.len, home-lt n v.size key)),
          get_key_uint-scan m key v,
        )
        (elim (Option-cases (scan key es)) [
          | inl absent ↦ rw absent (insert_new_lem absent (roomy (rw absent)))
          | inr (i, e) ↦ rw e (_, refl, update-Inserts i e)
        ])
