-- ===== src/Util/Copy/Clash.antt =====
-- `cg_memcpy_avx2` on operands that overlap so far that the tail reads what the loop has written.
use native.Mathlib.Decide.{dec_lt}
use compuguessr.Base.{
  ℕ, zero, suc, ◌+◌, ◌-◌, ◌≤◌, ◌<◌, ◌≡◌, ◌∙◌, List, arith, length, get_or, ltb, false,
}
use compuguessr.Util.Copy.{copy_tail, memcpy_avx2, tail_size}
use compuguessr.Util.Copy.Moves.{Moves, Fits, Moves-block}
use compuguessr.Util.Copy.Exact.{Clashes, tail_size_bound, looped-Moves, memcpy_avx2-Moves}

-- As `Moves`, but of the last 32 bytes those before the tail are from `src - dest` places further on.
pub record Shifts (mem : List ℕ) (dest src n left : ℕ) (mem' : List ℕ) : Type 0 where
  pub sized : length mem' ≡ length mem
  pub front : (i : ℕ) → i + 32 < n → get_or mem' (dest + i) 0 ≡ get_or mem (src + i) 0
  pub stale :
      (i : ℕ)
      → n ≤ i + 32
      → src + i + left < dest + n
      → get_or mem' (dest + i) 0 ≡ get_or mem (src + (src - dest) + i) 0
  pub back :
      (i : ℕ)
      → i < n
      → dest + n ≤ src + i + left
      → get_or mem' (dest + i) 0 ≡ get_or mem (src + i) 0
  pub below : (i : ℕ) → i < dest → get_or mem' i 0 ≡ get_or mem i 0
  pub above : (i : ℕ) → dest + n ≤ i → get_or mem' i 0 ≡ get_or mem i 0

module _ (mem : List ℕ) (dest src n : ℕ) (f : Fits mem dest src n) (long : 32 ≤ n) where
  tail-Shifts :
      (r : ℕ) (looped : List ℕ)
      → suc r < 32
      → Moves mem dest src (n - suc r) looped
      → dest < src
      → src + suc r < dest + 32
      → Shifts mem dest src n (suc r) (copy_tail (suc r) looped (dest + n) (src + n))
  unfolding copy_tail
  tail-Shifts r looped small m forward near =
      let b =
        Moves-block looped (dest + n - 32) (src + n - 32) 32 (omega (arith, m.sized, f.writes))
          (omega (arith, m.sized, f.reads)) in
      record {
        sized = b.sized ∙ m.sized;
        front = λ i h. b.below (dest + i) (omega arith) ∙ m.moved i (omega arith);
        stale = λ i lo hi.
            let k = i + 32 - n in
            let d : dest + n - 32 + k ≡ dest + i = omega arith in
            let s : src + n - 32 + k ≡ dest + (src - dest + i) = omega arith in
            let j : src + (src - dest + i) ≡ src + (src - dest) + i = omega arith in
            rw (d, s) at (b.moved k (omega arith))
            ∙ rw j at (m.moved (src - dest + i) (omega arith));
        back = λ i h hi.
            let k = i + 32 - n in
            let d : dest + n - 32 + k ≡ dest + i = omega arith in
            let s : src + n - 32 + k ≡ src + i = omega arith in
            rw (d, s) at (b.moved k (omega arith)) ∙ m.above (src + i) (omega arith);
        below = λ i h. b.below i (omega arith) ∙ m.below i h;
        above = λ i h. b.above i (omega arith) ∙ m.above i (omega arith);
      }

  clash-Shifts :
      (r : ℕ) (looped : List ℕ)
      → 0 < r
      → r < 32
      → Moves mem dest src (n - r) looped
      → dest < src
      → src + r < dest + 32
      → Shifts mem dest src n r (copy_tail r looped (dest + n) (src + n))
  clash-Shifts zero looped some_left small m forward near = absurd (omega arith)
  clash-Shifts (suc r) looped some_left small m forward near =
      tail-Shifts r looped small m forward near

pub memcpy_avx2-Shifts :
    (start : ℕ) (mem : List ℕ) (dest src n : ℕ)
    → Fits mem dest src n
    → Clashes start dest src n
    → Shifts mem dest src n (tail_size (start + dest) n) (memcpy_avx2 start mem dest src n)
unfolding memcpy_avx2
memcpy_avx2-Shifts start mem dest src n f c =
    let r = tail_size (start + dest) n in
    let long : ltb n 32 ≡ false = ground (arith, c.long) in
    rw long (
      clash-Shifts mem dest src n f c.long r _ c.tail (tail_size_bound (start + dest) n)
        (looped-Moves mem dest src n f c.long (start + dest)) c.forward c.near)

-- Whatever the operands, each byte of the memory is one that stood there before.
pub record Rearranges (mem mem' : List ℕ) : Type 0 where
  pub sized : length mem' ≡ length mem
  pub from : (i : ℕ) → (j : ℕ) × (get_or mem' i 0 ≡ get_or mem j 0)

Moves-Rearranges :
    (mem mem' : List ℕ) (dest src n : ℕ) → Moves mem dest src n mem' → Rearranges mem mem'
Moves-Rearranges mem mem' dest src n m = record {
  sized = m.sized;
  from = λ i. elim (dec_lt i dest) [
    | yes before ↦ (i, m.below i before)
    | no later ↦ elim (dec_lt i (dest + n)) [
      | no after ↦ (i, m.above i (omega arith))
      | yes within ↦
          let place : dest + (i - dest) ≡ i = omega arith in
          (src + (i - dest), rw place at (m.moved (i - dest) (omega arith)))
    ]
  ];
}

Shifts-Rearranges :
    (mem mem' : List ℕ) (dest src n left : ℕ)
    → Shifts mem dest src n left mem'
    → Rearranges mem mem'
Shifts-Rearranges mem mem' dest src n left m = record {
  sized = m.sized;
  from = λ i. elim (dec_lt i dest) [
    | yes before ↦ (i, m.below i before)
    | no later ↦
        let k = i - dest in
        let place : dest + k ≡ i = omega arith in
        elim (dec_lt i (dest + n)) [
          | no after ↦ (i, m.above i (omega arith))
          | yes within ↦ elim (dec_lt (k + 32) n) [
            | yes front ↦ (src + k, rw place at (m.front k front))
            | no last ↦ elim (dec_lt (src + k + left) (dest + n)) [
              | yes stale ↦ (src + (src - dest) + k, rw place at (m.stale k (omega arith) stale))
              | no back ↦ (src + k, rw place at (m.back k (omega arith) (omega arith)))
            ]
          ]
        ]
  ];
}

Clashes-dec : (start dest src n : ℕ) → Dec (Clashes start dest src n)
Clashes-dec start dest src n =
    let left = tail_size (start + dest) n in
    elim (dec_lt n 32) [
      | yes short ↦ no (λ c. let long = c.long in omega arith)
      | no long ↦ elim (dec_lt 0 left) [
        | no none_left ↦ no (λ c. none_left c.tail)
        | yes tail ↦ elim (dec_lt dest src) [
          | no back ↦ no (λ c. back c.forward)
          | yes forward ↦ elim (dec_lt (src + left) (dest + 32)) [
            | no far ↦ no (λ c. far c.near)
            | yes near ↦
                yes (record { long = omega arith; tail = tail; forward = forward; near = near })
          ]
        ]
      ]
    ]

pub memcpy_avx2-Rearranges :
    (start : ℕ) (mem : List ℕ) (dest src n : ℕ)
    → Fits mem dest src n
    → Rearranges mem (memcpy_avx2 start mem dest src n)
memcpy_avx2-Rearranges start mem dest src n f = elim (Clashes-dec start dest src n) [
  | yes c ↦ Shifts-Rearranges mem _ dest src n _ (memcpy_avx2-Shifts start mem dest src n f c)
  | no c ↦ Moves-Rearranges mem _ dest src n (memcpy_avx2-Moves start mem dest src n f c)
]
