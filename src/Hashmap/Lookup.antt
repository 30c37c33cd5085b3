-- ===== src/Hashmap/Lookup.antt =====
-- The invariant of the map, and lookup against a plain scan of the entries.
use compuguessr.Base.{
  ℕ, ◌-◌, ◌<◌, ◌≡◌, refl, ◌≢◌, inl, inr, Bool, true, false, Option, List, [], ◌∷◌, Run, ok, arith,
  length, get_or, is_empty, ◌==◌, Bool-cases,
}
use compuguessr.Base.Search.{
  find_index, count_if, First, find_index_of_First, find_index_of_none, count_if_witness,
}
use compuguessr.Base.Words.{sub_u32}
use compuguessr.Hashmap.{Entry, Map, blank, matches, probe, get_key_uint}
use compuguessr.Hashmap.Probe.{
  IsSize, ring, dist, home, home-lt, dist-lt, ring-dist, start_lem, size_pos, Probed, hit, miss,
  lost, probe_all,
}
use mathlib.Core.Option
use native.Mathlib.Decide.{dec_lt}

abbrev pub is_live : Entry → Bool
is_live e = e.occupied == 1

abbrev pub is_vacant : Entry → Bool
is_vacant e = e.occupied == 0

abbrev pub slot : List Entry → ℕ → Entry
slot es i = get_or es i blank

-- Every slot between a live entry and the home of its key is in use, and no two live entries
-- have one key.
pub record Placed (n : ℕ) (es : List Entry) : Type 0 where
  pub len : length es ≡ n
  pub reach :
      (i d : ℕ)
      → i < n
      → (slot es i).occupied ≡ 1
      → d < dist n (home n (slot es i).key) i
      → (slot es (ring n (home n (slot es i).key) d)).occupied ≢ 0
  pub distinct :
      (i j : ℕ)
      → i < n
      → j < n
      → (slot es i).occupied ≡ 1
      → (slot es j).occupied ≡ 1
      → (slot es i).key ≡ (slot es j).key
      → i ≡ j

pub record IsValid (m : Map) : Type 0 where
  pub size : IsSize m.capacity
  pub placed : Placed m.capacity m.entries
  pub vacancy : 0 < count_if is_vacant m.entries
  pub counted : m.count ≡ count_if is_live m.entries

-- The specification: the first entry of the array that is live and has the key.
abbrev pub scan : ℕ → List Entry → Option ℕ
scan key = find_index (matches key)

-- The map as a function from keys to values.
unfoldable pub view : Map → ℕ → Option ℕ
view m key = Option.map (λ i. (slot m.entries i).val) (scan key m.entries)

pub is_empty_of_pos : (es : List Entry) → 0 < length es → is_empty es ≡ false
is_empty_of_pos [] h = absurd (omega arith)
is_empty_of_pos (e ∷ es) h = refl

module _ (n : ℕ) (size : IsSize n) (es : List Entry) (p : Placed n es) (key : ℕ) where
  only_match :
      (i j : ℕ)
      → i < n
      → j < n
      → matches key (slot es i) ≡ true
      → j < i
      → matches key (slot es j) ≡ false
  only_match i j p₁ p₂ same lt = ground (arith, p.distinct j i)

  pub First-match :
      (i : ℕ) → i < n → matches key (slot es i) ≡ true → First (matches key) blank es i
  First-match i lt same = record {
    below = omega (arith, p.len);
    passes = same;
    earlier = λ j before. only_match i j lt (omega arith) same before;
  }

  abbrev at_dist : ℕ → Entry
  at_dist d = slot es (ring n (home n key) d)

  module _ (j : ℕ) (j_lt : j < n) (same : matches key (slot es j) ≡ true) where
    there : at_dist (dist n (home n key) j) ≡ slot es j
    there = rw (ring-dist n (home n key) j (home-lt n size key) j_lt)

    same_key : (slot es j).key ≡ key
    same_key = ground arith

    live : (slot es j).occupied ≡ 1
    live = ground arith

    -- The slots before a live entry with the key are in use, and it lies at its distance.
    used_before : (d : ℕ) → d < dist n (home n key) j → (at_dist d).occupied ≢ 0
    used_before d lt = rw same_key at (p.reach j d j_lt live) lt

  -- So it lies before the first slot that is empty.
  none_beyond :
      (d : ℕ)
      → d < n
      → (at_dist d).occupied ≡ 0
      → ((d' : ℕ) → d' < d → matches key (at_dist d') ≡ false)
      → (j : ℕ) → j < n
      → matches key (slot es j) ≡ false
  none_beyond d lt empty before j j_lt = elim (Bool-cases (matches key (slot es j))) [
    | inr other ↦ other
    | inl same ↦ ground (
      arith,
      there j j_lt same,
      used_before j j_lt same d,
      before (dist n (home n key) j),
      live j j_lt same,
      dec_lt d (dist n (home n key) j),
    )
  ]

  -- A slot that was never used ends every probe.
  pub not_lost : 0 < count_if is_vacant es → ((d : ℕ) → d < n → (at_dist d).occupied ≢ 0) → ⊥
  not_lost v used =
      let (e, lt, empty) = count_if_witness is_vacant blank es v in
      let e_lt : e < n = omega (arith, p.len) in
      let h_lt = home-lt n size key in
      used (dist n (home n key) e) (dist-lt n (home n key) e h_lt e_lt)
        (rw (ring-dist n (home n key) e h_lt e_lt) (ground arith))

  Probed-scan :
      {r : Run (Option ℕ)}
      → 0 < count_if is_vacant es
      → Probed n size es p.len key (home n key) (home-lt n size key) r
      → r ≡ ok (scan key es)
  Probed-scan v (hit i lt same e) =
      rw (e, find_index_of_First (matches key) blank es i (First-match i lt same))
  Probed-scan v (miss d lt empty before e) = rw (
    e,
    find_index_of_none (matches key) blank es
        (λ j j_lt. none_beyond d lt empty (λ d' lt'. (before d' lt').1) j (omega (arith, p.len))),
  )
  Probed-scan v (lost before e) = absurd (not_lost v (λ d lt. (before d lt).0))

  pub probe-scan :
      0 < count_if is_vacant es → probe es (n - 1) key n (home n key) ≡ ok (scan key es)
  probe-scan v = Probed-scan v (probe_all n size es p.len key (home n key) (home-lt n size key))

pub mask-capacity : (n : ℕ) → IsSize n → sub_u32 n 1 ≡ n - 1
mask-capacity n size = omega (arith, size_pos n size, size.fits)

-- On a valid map the lookup by probing ends, without leaving the array, at the entry that a scan
-- of the whole array finds: the live entry with the key, or none if there is none.
pub get_key_uint-scan :
    (m : Map) (key : ℕ) → IsValid m → get_key_uint m key ≡ ok (scan key m.entries)
unfolding get_key_uint
get_key_uint-scan m key v =
    let pos = size_pos m.capacity v.size in
    let filled : is_empty m.entries ≡ false =
      is_empty_of_pos m.entries (omega (arith, v.placed.len)) in
    let sized : m.capacity == 0 ≡ false = ground arith in
    rw (filled, sized, mask-capacity m.capacity v.size, start_lem m.capacity v.size key)
      (probe-scan m.capacity v.size m.entries v.placed key v.vacancy)
