-- ===== src/Hashmap/Probe.antt =====
-- The probe sequence: the slots of a ring, from the home of a key on, and what the two loops
-- find along it.
use compuguessr.Base.{
  ℕ, zero, suc, ◌+◌, ◌-◌, ◌%◌, ◌^◌, ◌<◌, ◌≡◌, refl, ◌≢◌, inl, inr, true, false, bit_and, Option,
  none, some, List, Run, ok, fail, no_fuel, arith, length, get_or, ◌==◌, ltb, leb, if◌then◌else◌,
  get_elem?-eq-get_or, Bool-cases, ltb→lt,
}
use compuguessr.Base.Bits.{bit_and_mask}
use compuguessr.Hashmap.{Entry, blank, matches, at, start, next, probe}
use native.Mathlib.Decide.{dec_lt}
use compuguessr.Util.Hash.{hash_uint64}
use native.Mathlib.Nat.{mod-lt, mod_self, mod-eq_of_lt, one-le-pow}

-- The slot that lies `d` after `h` on a ring of `n`.
abbrev pub ring : ℕ → ℕ → ℕ → ℕ
ring n h d = if ltb (h + d) n then h + d else h + d - n

-- How far slot `i` lies after `h`.
abbrev pub dist : ℕ → ℕ → ℕ → ℕ
dist n h i = if leb h i then i - h else i + n - h

pub ring-lt : (n h d : ℕ) → h < n → d < n → ring n h d < n
ring-lt n h d p q = ground arith

pub dist-lt : (n h i : ℕ) → h < n → i < n → dist n h i < n
dist-lt n h i p q = ground arith

pub ring-dist : (n h i : ℕ) → h < n → i < n → ring n h (dist n h i) ≡ i
ring-dist n h i p q = ground arith

pub dist-ring : (n h d : ℕ) → h < n → d < n → dist n h (ring n h d) ≡ d
dist-ring n h d p q = ground arith

succ_mod : (n x : ℕ) → x < n → (x + 1) % n ≡ (if ltb (x + 1) n then x + 1 else 0)
succ_mod n x h = elim (Bool-cases (ltb (x + 1) n)) [
  | inl inside ↦ rw inside (mod-eq_of_lt (ltb→lt _ _ inside))
  | inr wraps ↦ rw wraps (let full : x + 1 ≡ n = ground arith in rw full (mod_self n))
]

-- A size that the map can have: a power of two that fits 32 bits.
pub record IsSize (n : ℕ) : Type 0 where
  pub log : ℕ
  pub power : n ≡ 2 ^ log
  pub fits : n < 2 ^ 32

unfoldable pub home : ℕ → ℕ → ℕ
home n key = hash_uint64 key % n

module _ (n : ℕ) (size : IsSize n) where
  pub size_pos : 0 < n
  size_pos = omega (arith, size.power, one-le-pow size.log 2)

  mask_lem : (x : ℕ) → bit_and x (n - 1) ≡ x % n
  mask_lem x = rw size.power (bit_and_mask size.log x)

  pub start_lem : (key : ℕ) → start (n - 1) key ≡ home n key
  unfolding home
  start_lem key =
      rw mask_lem (omega (arith, size.fits, size_pos, mod-lt (hash_uint64 key) size_pos))

  pub home-lt : (key : ℕ) → home n key < n
  unfolding home
  home-lt key = mod-lt (hash_uint64 key) size_pos

  pub next_lem : (h d : ℕ) → h < n → d < n → next (n - 1) (ring n h d) ≡ ring n h (suc d)
  next_lem h d p q = rw mask_lem (ground (arith, size.fits, succ_mod n (ring n h d)))

  module _ (es : List Entry) (len : length es ≡ n) where
    abbrev slot : ℕ → Entry
    slot i = get_or es i blank

    at_slot : (i : ℕ) → i < n → at es i ≡ ok (slot i)
    at_slot i lt = rw (get_elem?-eq-get_or es i blank (omega arith), at)

    module _ (key h : ℕ) (h_lt : h < n) where
      -- The slot at distance `d` is in use, and is not the key's.
      abbrev Passed : ℕ → Type 0
      Passed d = ((slot (ring n h d)).occupied ≢ 0) × (matches key (slot (ring n h d)) ≡ false)

      -- What the loop of a lookup comes to.
      pub data Probed (r : Run (Option ℕ)) : Type 0 where
        hit : (i : ℕ) → i < n → matches key (slot i) ≡ true → r ≡ ok (some i) → Probed r
        miss :
            (d : ℕ)
            → d < n
            → (slot (ring n h d)).occupied ≡ 0
            → ((d' : ℕ) → d' < d → Passed d')
            → r ≡ ok none
            → Probed r
        lost : ((d' : ℕ) → d' < n → Passed d') → r ≡ fail no_fuel → Probed r

      Passed-suc :
          (d : ℕ) → ((d' : ℕ) → d' < d → Passed d') → Passed d → (d' : ℕ) → d' < suc d → Passed d'
      Passed-suc d before now d' lt = elim (dec_lt d' d) [
        | yes p ↦ before d' p
        | no p ↦ let same : d' ≡ d = omega arith in rw same now
      ]

      probe-Probed :
          (fuel d : ℕ)
          → d + fuel ≡ n
          → ((d' : ℕ) → d' < d → Passed d')
          → Probed (probe es (n - 1) key fuel (ring n h d))
      unfolding probe
      probe-Probed zero d e before = lost (λ d' lt. before d' (omega arith)) refl
      probe-Probed (suc fuel) d e before =
          let s = slot (ring n h d) in
          let inside : ring n h d < n = ring-lt n h d h_lt (omega arith) in
          rw (at_slot (ring n h d) inside) (elim (Bool-cases (s.occupied == 0)) [
            | inl empty ↦ rw empty (miss d (omega arith) (ground arith) before refl)
            | inr used ↦ rw used (elim (Bool-cases (matches key s)) [
              | inl same ↦ rw same (hit (ring n h d) inside same refl)
              | inr other ↦
                  rw (other, next_lem h d h_lt (omega arith))
                    (probe-Probed fuel (suc d) (omega arith)
                      (Passed-suc d before ((λ z. ground arith), other)))
            ])
          ])

      pub probe_all : Probed (probe es (n - 1) key n h)
      probe_all =
          let at_home : ring n h 0 ≡ h = ground arith in
          rw at_home at (probe-Probed n 0 (omega arith) (λ d lt. absurd (omega arith)))
