-- ===== src/Hashmap/Update.antt =====
-- A write to one slot: what keeps the array well placed, and what it does to the map.
use compuguessr.Base.{
  ℕ, ◌<◌, ◌≡◌, refl, ◌∙◌, ◌≢◌, inl, inr, true, false, Option, none, some, List, arith, length-set,
  get_or-set, set, ◌==◌, if◌then◌else◌, Bool-cases, Option-cases,
}
use compuguessr.Base.Search.{
  find_index-First, find_index-none, find_index_of_First, find_index_of_none,
}
use compuguessr.Hashmap.{Entry, blank, matches}
use compuguessr.Hashmap.Probe.{IsSize, ring, dist, home}
use compuguessr.Hashmap.Lookup.{slot, scan, Placed, First-match}
use mathlib.Core.Option

abbrev pub value_at : List Entry → Option ℕ → Option ℕ
value_at es = Option.map (λ i. (slot es i).val)

module _ (n : ℕ) (size : IsSize n) (es : List Entry) (p : Placed n es) (q : ℕ) where
  pub scan_of_match : (i : ℕ) → i < n → matches q (slot es i) ≡ true → scan q es ≡ some i
  scan_of_match i lt same =
      find_index_of_First (matches q) blank es i (First-match n size es p q i lt same)

  pub scan_of_none : ((j : ℕ) → j < n → matches q (slot es j) ≡ false) → scan q es ≡ none
  scan_of_none other =
      find_index_of_none (matches q) blank es (λ j lt. other j (omega (arith, p.len)))

  pub scan_found : (i : ℕ) → scan q es ≡ some i → (i < n) × (matches q (slot es i) ≡ true)
  scan_found i e =
      let f = find_index-First (matches q) blank es i e in (omega (arith, f.below, p.len), f.passes)

  pub scan_absent : scan q es ≡ none → (j : ℕ) → j < n → matches q (slot es j) ≡ false
  scan_absent e j lt = find_index-none (matches q) blank es e j (omega (arith, p.len))

module _ (n : ℕ) (size : IsSize n) (es : List Entry) (p : Placed n es) (i : ℕ) (i_lt : i < n)
    (new : Entry) where
  abbrev written : List Entry
  written = set es i new

  pub slot_written : (j : ℕ) → slot written j ≡ (if i == j then new else slot es j)
  slot_written j = get_or-set es i j new blank (omega (arith, p.len))

  module _ (used : new.occupied ≢ 0)
      (near : new.occupied ≡ 1
        → (d : ℕ) → d < dist n (home n new.key) i
        → (slot es (ring n (home n new.key) d)).occupied ≢ 0)
      (alone : new.occupied ≡ 1
        → (j : ℕ) → j < n
        → i ≢ j
        → (slot es j).occupied ≡ 1
        → (slot es j).key ≢ new.key) where
    still_used : (j : ℕ) → (slot es j).occupied ≢ 0 → (slot written j).occupied ≢ 0
    still_used j h = ground (arith, slot_written j)

    reach_written :
        (j d : ℕ)
        → j < n
        → (slot written j).occupied ≡ 1
        → d < dist n (home n (slot written j).key) j
        → (slot written (ring n (home n (slot written j).key) d)).occupied ≢ 0
    reach_written j d lt live d_lt = elim (Bool-cases (i == j)) [
      | inl same ↦
          let here : slot written j ≡ new = rw (slot_written j, same) refl in
          let i_j : j ≡ i = ground arith in
          rw here (still_used _ (near (rw here at live) d (rw (here, i_j) at d_lt)))
      | inr other ↦
          let old : slot written j ≡ slot es j = rw (slot_written j, other) refl in
          rw old (still_used _ (p.reach j d lt (rw old at live) (rw old at d_lt)))
    ]

    pub Placed-written : Placed n written
    Placed-written = record {
      len = length-set es i new ∙ p.len;
      reach = reach_written;
      distinct = λ j k j_lt k_lt j_live k_live same.
          ground (arith, slot_written j, slot_written k, p.distinct j k, alone _ j, alone _ k);
    }

  -- What the map is after the write, at a key `q`.
  module _ (p' : Placed n written) (q : ℕ) where
    differs : (j : ℕ) → j < n → i ≢ j → matches q (slot written j) ≡ matches q (slot es j)
    differs j lt ne = ground (arith, slot_written j)

    view_same :
        matches q new ≡ false
        → matches q (slot es i) ≡ false
        → value_at written (scan q written) ≡ value_at es (scan q es)
    view_same off off' = elim (Option-cases (scan q es)) [
      | inl e ↦ rw (
        e,
        scan_of_none n size written p' q
            (λ j lt. ground (arith, slot_written j, scan_absent n size es p q e j)),
      )
      | inr (j, e) ↦
          let (lt, same) = scan_found n size es p q j e in
          let kept : slot written j ≡ slot es j = ground (arith, slot_written j) in
          rw (e, scan_of_match n size written p' q j lt (rw kept same), Option.map) (rw kept)
    ]

    view_gone : matches q new ≡ false → matches q (slot es i) ≡ true → scan q written ≡ none
    view_gone off was =
        scan_of_none n size written p' q (λ j lt. ground (arith, slot_written j, p.distinct j i))

    pub view_written : value_at written (scan q written) ≡ (
        if matches q new
        then some new.val
        else if matches q (slot es i)
        then none
        else value_at es (scan q es))
    view_written = elim (Bool-cases (matches q new)) [
      | inl on ↦
          let here : slot written i ≡ new = ground (arith, slot_written i) in
          rw (on, scan_of_match n size written p' q i i_lt (rw here on), Option.map) (rw here)
      | inr off ↦ elim (Bool-cases (matches q (slot es i))) [
        | inl was ↦ rw (off, was, view_gone off was) refl
        | inr was_not ↦ rw (off, was_not) (view_same off was_not)
      ]
    ]
