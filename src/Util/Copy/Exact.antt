-- ===== src/Util/Copy/Exact.antt =====
-- `cg_memcpy_avx2`: when it is the copy it is meant to be, and what it leaves otherwise.
use native.Mathlib.Decide.{dec_lt}
use compuguessr.Base.{
  ℕ, zero, suc, ◌+◌, ◌-◌, ◌*◌, ◌/◌, ◌%◌, ◌≤◌, ◌<◌, ◌≡◌, ◌∙◌, inl, inr, List, arith, get_or, ltb,
  Bool-cases,
}
use compuguessr.Util.Copy.{memcpy, copy_vectors, prologue, tail_size, copy_tail, memcpy_avx2}
use compuguessr.Util.Copy.Moves.{
  Moves, Fits, Moves-append, Moves-block, Fits-rest, memcpy-Moves, copy_vectors-Moves,
}

-- The last 32 bytes are read again after the loop has written over some of them.
pub record Clashes (start dest src n : ℕ) : Type 0 where
  pub long : 32 ≤ n
  pub tail : 0 < tail_size (start + dest) n
  pub forward : dest < src
  pub near : src + tail_size (start + dest) n < dest + 32

pub prologue_bound : (address : ℕ) → prologue address < 32
unfolding prologue
prologue_bound address = ground arith

pub tail_size_bound : (address n : ℕ) → tail_size address n < 32
unfolding tail_size
tail_size_bound address n = omega arith

module _ (mem : List ℕ) (dest src n : ℕ) (f : Fits mem dest src n) (long : 32 ≤ n) where
  -- The memory after the loop, all but `r` bytes of it moved.
  module _ (r : ℕ) (looped : List ℕ) (small : r < 32) (m : Moves mem dest src (n - r) looped) where
    -- The byte that the tail reads is the one that stood there at first.
    tail_source :
        (0 < r → dest < src → dest + 32 ≤ src + r)
        → (i : ℕ) → n - 32 ≤ i
        → i < n
        → 0 < r
        → get_or looped (src + i) 0 ≡ get_or mem (src + i) 0
    tail_source safe i lo hi some_left = elim f.ahead [
      | inr behind ↦ m.below (src + i) (omega arith)
      | inl ahead ↦ elim (dec_lt dest src) [
        | yes forward ↦ m.above (src + i) (omega (arith, safe some_left forward))
        | no same ↦
            let here : dest ≡ src = omega arith in
            elim (dec_lt i (n - r)) [
              | yes moved ↦ rw here at (m.moved i moved)
              | no rest ↦ m.above (src + i) (omega arith)
            ]
      ]
    ]

  tail-Moves :
      (r : ℕ) (looped : List ℕ)
      → r < 32
      → Moves mem dest src (n - r) looped
      → (0 < r → dest < src → dest + 32 ≤ src + r)
      → Moves mem dest src n (copy_tail r looped (dest + n) (src + n))
  unfolding copy_tail
  tail-Moves zero looped small m safe = let all : n - 0 ≡ n = omega arith in rw all at m
  tail-Moves (suc r) looped small m safe =
      let b =
        Moves-block looped (dest + n - 32) (src + n - 32) 32 (omega (arith, m.sized, f.writes))
          (omega (arith, m.sized, f.reads)) in
      record {
        sized = b.sized ∙ m.sized;
        moved = λ i h. elim (dec_lt i (n - 32)) [
          | yes front ↦ b.below (dest + i) (omega arith) ∙ m.moved i (omega arith)
          | no back ↦
              let k = i - (n - 32) in
              let d : dest + n - 32 + k ≡ dest + i = omega arith in
              let s : src + n - 32 + k ≡ src + i = omega arith in
              rw (d, s) at (b.moved k (omega arith))
              ∙ tail_source (suc r) looped small m safe i (omega arith) h (omega arith)
        ];
        below = λ i h. b.below i (omega arith) ∙ m.below i h;
        above = λ i h. b.above i (omega arith) ∙ m.above i (omega arith);
      }

  -- After the prologue and the loop.
  pub looped-Moves :
      (address : ℕ)
      → let head = prologue address in
        Moves mem dest src
          (n - tail_size address n)
          (copy_vectors ((n - head) / 32) (memcpy head mem dest src) (dest + head) (src + head))
  unfolding tail_size
  looped-Moves address =
      let head = prologue address in
      let rounds = (n - head) / 32 in
      let size : head + rounds * 32 ≡ n - (n - head) % 32 = omega (arith, prologue_bound address) in
      let g : Fits mem dest src (head + rounds * 32) = ground (arith, f.ahead, f.writes, f.reads) in
      let g' : Fits mem dest src head = ground (arith, f.ahead, f.writes, f.reads) in
      let first = memcpy-Moves head mem dest src g' in
      let second =
        copy_vectors-Moves rounds (memcpy head mem dest src) (dest + head) (src + head)
          (Fits-rest mem (memcpy head mem dest src) dest src head (rounds * 32) g first) in
      rw size at (
        Moves-append mem (memcpy head mem dest src)
          (copy_vectors rounds (memcpy head mem dest src) (dest + head) (src + head)) dest src head
          (rounds * 32) g first second)

pub memcpy_avx2-Moves :
    (start : ℕ) (mem : List ℕ) (dest src n : ℕ)
    → Fits mem dest src n
    → ¬ Clashes start dest src n
    → Moves mem dest src n (memcpy_avx2 start mem dest src n)
unfolding memcpy_avx2
memcpy_avx2-Moves start mem dest src n f safe = elim (Bool-cases (ltb n 32)) [
  | inl short ↦ rw short (memcpy-Moves n mem dest src f)
  | inr long ↦
      let r = tail_size (start + dest) n in
      let big : 32 ≤ n = ground arith in
      let apart : 0 < r → dest < src → dest + 32 ≤ src + r = λ p q.
        elim (dec_lt (src + r) (dest + 32)) [
          | yes near ↦ absurd (safe (record { long = big; tail = p; forward = q; near = near }))
          | no far ↦ omega arith
        ] in
      rw long (
        tail-Moves mem dest src n f big r _ (tail_size_bound (start + dest) n)
          (looped-Moves mem dest src n f big (start + dest)) apart)
]
