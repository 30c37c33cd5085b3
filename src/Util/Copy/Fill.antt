-- ===== src/Util/Copy/Fill.antt =====
-- `cg_memset` and `cg_memset_avx2`: the tail of the vector code fills some bytes twice.
use native.Mathlib.Decide.{dec_lt}
use compuguessr.Base.{
  ℕ, zero, suc, ◌+◌, ◌-◌, ◌*◌, ◌/◌, ◌%◌, ◌≤◌, ◌<◌, ◌≡◌, refl, sym, ◌∙◌, inl, inr, List, arith,
  length, get_or, set, replicate, length-replicate, length-set, get_or-set, ltb, Bool-cases,
}
use compuguessr.Base.Places.{
  places_ext, get_or-write_below, get_or-write_at, get_or-write_above, get_or-replicate_at,
}
use compuguessr.Base.Text.{write, length-write}
use compuguessr.Util.Copy.{memset, memset_avx2, fill_vectors, fill_tail, prologue, tail_size}
use compuguessr.Util.Copy.Exact.{prologue_bound}

-- `n` bytes at `dest` are `val`, and nothing else has changed.
pub record Fills (mem : List ℕ) (dest val n : ℕ) (mem' : List ℕ) : Type 0 where
  pub sized : length mem' ≡ length mem
  pub filled : (i : ℕ) → dest ≤ i → i < dest + n → get_or mem' i 0 ≡ val
  pub below : (i : ℕ) → i < dest → get_or mem' i 0 ≡ get_or mem i 0
  pub above : (i : ℕ) → dest + n ≤ i → get_or mem' i 0 ≡ get_or mem i 0

Fills-none : (mem : List ℕ) (dest val : ℕ) → Fills mem dest val 0 mem
Fills-none mem dest val = record {
  sized = refl;
  filled = λ i p h. absurd (omega arith);
  below = λ i h. refl;
  above = λ i h. refl;
}

Fills-append :
    (mem mem₁ mem₂ : List ℕ) (dest val p q : ℕ)
    → Fills mem dest val p mem₁
    → Fills mem₁ (dest + p) val q mem₂
    → Fills mem dest val (p + q) mem₂
Fills-append mem mem₁ mem₂ dest val p q a b = record {
  sized = b.sized ∙ a.sized;
  filled = λ i lo hi. elim (dec_lt i (dest + p)) [
    | yes first ↦ b.below i first ∙ a.filled i lo first
    | no second ↦ b.filled i (omega arith) (omega arith)
  ];
  below = λ i h. b.below i (omega arith) ∙ a.below i h;
  above = λ i h. b.above i (omega arith) ∙ a.above i (omega arith);
}

Fills-block :
    (mem : List ℕ) (dest val n : ℕ)
    → dest + n ≤ length mem
    → Fills mem dest val n (write mem dest (replicate n val))
Fills-block mem dest val n fits =
    let block = replicate n val in
    let size : length block ≡ n = length-replicate n val in
    let inside : dest ≤ length mem = omega arith in
    record {
      sized = length-write mem dest block (omega arith);
      filled = λ i lo hi.
          let place : dest + (i - dest) ≡ i = omega arith in
          rw place at (get_or-write_at mem dest block inside (i - dest) (omega arith))
          ∙ get_or-replicate_at n (i - dest) val 0 (omega arith);
      below = λ i h. get_or-write_below mem dest block inside i h;
      above = λ i h. get_or-write_above mem dest block inside i (omega arith);
    }

memset-Fills :
    (n : ℕ) (mem : List ℕ) (dest val : ℕ)
    → dest + n ≤ length mem
    → Fills mem dest val n (memset n mem dest val)
unfolding memset
memset-Fills zero mem dest val fits = Fills-none mem dest val
memset-Fills (suc n) mem dest val fits =
    let next = set mem dest val in
    let size : 1 + n ≡ suc n = omega arith in
    let inside : dest < length mem = omega arith in
    let one : Fills mem dest val 1 next = record {
      sized = length-set mem dest val;
      filled = λ i lo hi. ground (arith, get_or-set mem dest i val 0 inside);
      below = λ i h. ground (arith, get_or-set mem dest i val 0 inside);
      above = λ i h. ground (arith, get_or-set mem dest i val 0 inside);
    } in
    rw size at (
      Fills-append mem next (memset n next (dest + 1) val) dest val 1 n one
        (memset-Fills n next (dest + 1) val (omega (arith, length-set mem dest val))))

fill_vectors-Fills :
    (rounds : ℕ) (mem : List ℕ) (dest val : ℕ)
    → dest + rounds * 32 ≤ length mem
    → Fills mem dest val (rounds * 32) (fill_vectors rounds mem dest val)
unfolding fill_vectors
fill_vectors-Fills zero mem dest val fits = Fills-none mem dest val
fill_vectors-Fills (suc rounds) mem dest val fits =
    let next = write mem dest (replicate 32 val) in
    let size : 32 + rounds * 32 ≡ suc rounds * 32 = omega arith in
    let one = Fills-block mem dest val 32 (omega arith) in
    rw size at (
      Fills-append mem next (fill_vectors rounds next (dest + 32) val) dest val 32 (rounds * 32) one
        (fill_vectors-Fills rounds next (dest + 32) val (omega (arith, one.sized))))

fill_tail-Fills :
    (r : ℕ) (mem looped : List ℕ) (dest val n : ℕ)
    → dest + n ≤ length mem
    → 32 ≤ n
    → r < 32
    → Fills mem dest val (n - r) looped
    → Fills mem dest val n (fill_tail r looped (dest + n) val)
unfolding fill_tail
fill_tail-Fills zero mem looped dest val n fits long small m =
    let all : n - 0 ≡ n = omega arith in rw all at m
fill_tail-Fills (suc r) mem looped dest val n fits long small m =
    let b = Fills-block looped (dest + n - 32) val 32 (omega (arith, m.sized)) in
    record {
      sized = b.sized ∙ m.sized;
      filled = λ i lo hi. elim (dec_lt i (dest + n - 32)) [
        | yes front ↦ b.below i front ∙ m.filled i lo (omega arith)
        | no back ↦ b.filled i (omega arith) (omega arith)
      ];
      below = λ i h. b.below i (omega arith) ∙ m.below i h;
      above = λ i h. b.above i (omega arith) ∙ m.above i (omega arith);
    }

Fills-written :
    (mem : List ℕ) (dest val n : ℕ) (mem' : List ℕ)
    → dest + n ≤ length mem
    → Fills mem dest val n mem'
    → mem' ≡ write mem dest (replicate n val)
Fills-written mem dest val n mem' fits a =
    let b = Fills-block mem dest val n fits in
    places_ext 0 mem' (write mem dest (replicate n val)) (a.sized ∙ sym b.sized) (λ i h.
      elim (dec_lt i dest) [
        | yes before ↦ a.below i before ∙ sym (b.below i before)
        | no later ↦ elim (dec_lt i (dest + n)) [
          | no after ↦ a.above i (omega arith) ∙ sym (b.above i (omega arith))
          | yes within ↦ a.filled i (omega arith) within ∙ sym (b.filled i (omega arith) within)
        ]
      ])

memset_avx2-Fills :
    (start : ℕ) (mem : List ℕ) (dest val n : ℕ)
    → dest + n ≤ length mem
    → Fills mem dest val n (memset_avx2 start mem dest val n)
unfolding memset_avx2 tail_size
memset_avx2-Fills start mem dest val n fits =
    let head = prologue (start + dest) in
    let rounds = (n - head) / 32 in
    elim (Bool-cases (ltb n 32)) [
      | inl short ↦ rw short (memset-Fills n mem dest val fits)
      | inr long ↦
          let big : 32 ≤ n = ground arith in
          let size : head + rounds * 32 ≡ n - (n - head) % 32 =
            omega (arith, prologue_bound (start + dest)) in
          let first =
            memset-Fills head mem dest val (omega (arith, prologue_bound (start + dest))) in
          let second =
            fill_vectors-Fills rounds (memset head mem dest val) (dest + head) val
              (omega (arith, first.sized)) in
          let both =
            Fills-append mem (memset head mem dest val)
              (fill_vectors rounds (memset head mem dest val) (dest + head) val) dest val head
              (rounds * 32) first second in
          rw long (
            fill_tail-Fills ((n - head) % 32) mem _ dest val n fits big (omega arith)
              (rw size at both))
    ]

-- The vector code and the byte loop both write `n` bytes `val`.
pub memset_avx2-memset :
    (start : ℕ) (mem : List ℕ) (dest val n : ℕ)
    → dest + n ≤ length mem
    → (memset_avx2 start mem dest val n ≡ memset n mem dest val)
      × (memset n mem dest val ≡ write mem dest (replicate n val))
memset_avx2-memset start mem dest val n fits =
    let vector =
      Fills-written mem dest val n _ fits (memset_avx2-Fills start mem dest val n fits) in
    let plain = Fills-written mem dest val n _ fits (memset-Fills n mem dest val fits) in
    (vector ∙ sym plain, plain)
