-- ===== src/Util/Memory.antt =====
-- Comparison of memory and strings in src/util/cg_util.c. Memory is the list of the bytes from a
-- pointer on; a `char *` may end without its NUL, which then stands behind the last byte.
use compuguessr.Base.{
  ℕ, zero, suc, ◌-◌, ◌*◌, ◌/◌, ◌≤◌, ◌≡◌, refl, sym, ◌∙◌, ◌↔◌, inl, inr, Bool, true, false, not,
  ◌&&◌, List, [], ◌∷◌, Option, none, some, arith, length, take, drop, get_or, length-drop, ◌==◌,
  if◌then◌else◌, Bool-cases, Option-cases,
}
use compuguessr.Base.Int.{ℤ, pos, negsuc, sub_ℕ}
use compuguessr.Base.Text.{c_str}
use mathlib.Core.Option

-- `while (n--)`: the scalar loop.
unfoldable pub memcmp : ℕ → List ℕ → List ℕ → ℤ
memcmp (suc n) (a ∷ p) (b ∷ q) = if a == b then memcmp n p q else sub_ℕ a b
memcmp _ p q = pos 0

-- The lowest set bit of the mismatch mask of one block.
unfoldable pub first_mismatch : List ℕ → List ℕ → Option ℕ
first_mismatch (a ∷ p) (b ∷ q) = if a == b then Option.map suc (first_mismatch p q) else some 0
first_mismatch p q = none

-- `while (n >= 32)`, with the number of blocks that are left, then the scalar loop.
unfoldable pub memcmp_blocks : ℕ → ℕ → List ℕ → List ℕ → ℤ
memcmp_blocks zero n p q = memcmp n p q
memcmp_blocks (suc blocks) n p q =
    let rest = memcmp_blocks blocks (n - 32) (drop 32 p) (drop 32 q) in
    elim (first_mismatch (take 32 p) (take 32 q)) [
      | some i ↦ sub_ℕ (get_or p i 0) (get_or q i 0)
      | none ↦ rest
    ]

unfoldable pub memcmp_avx2 : List ℕ → List ℕ → ℕ → ℤ
memcmp_avx2 p q n = memcmp_blocks (n / 32) n p q

unfoldable pub strcmp : List ℕ → List ℕ → ℤ
strcmp [] [] = pos 0
strcmp [] (b ∷ t) = sub_ℕ 0 b
strcmp (a ∷ s) [] = sub_ℕ a 0
strcmp (a ∷ s) (b ∷ t) = let rest = strcmp s t in if not (a == 0) && a == b then rest else sub_ℕ a b

abbrev pub is_zero : ℤ → Bool
is_zero (pos n) = n == 0
is_zero (negsuc n) = false

-- `cg_strcmp(s, t) == 0`
unfoldable pub same_str : List ℕ → List ℕ → Bool
same_str s t = is_zero (strcmp s t)

-- One block of `k` bytes more or less makes no difference to the scalar loop.
memcmp_block :
    (k n : ℕ) (p q : List ℕ)
    → k ≤ n
    → n ≤ length p
    → n ≤ length q
    → memcmp n p q ≡ elim (first_mismatch (take k p) (take k q)) [
      | some i ↦ sub_ℕ (get_or p i 0) (get_or q i 0)
      | none ↦ memcmp (n - k) (drop k p) (drop k q)
    ]
unfolding memcmp first_mismatch
memcmp_block zero n p q h hp hq = let same : n - 0 ≡ n = omega arith in rw same refl
memcmp_block (suc k) zero p q h hp hq = absurd (omega arith)
memcmp_block (suc k) (suc n) [] q h hp hq = absurd (omega arith)
memcmp_block (suc k) (suc n) (a ∷ p) [] h hp hq = absurd (omega arith)
memcmp_block (suc k) (suc n) (a ∷ p) (b ∷ q) h hp hq =
    let less : suc n - suc k ≡ n - k = omega arith in
    elim (Bool-cases (a == b)) [
      | inr differ ↦ rw differ refl
      | inl same ↦
          let rest = memcmp_block k n p q (omega arith) (omega arith) (omega arith) in
          rw same (elim (Option-cases (first_mismatch (take k p) (take k q))) [
            | inl e ↦ rw (e, less) (rw e at rest)
            | inr (i, e) ↦ rw e (rw e at rest)
          ])
    ]

memcmp_blocks_lem :
    (blocks n : ℕ) (p q : List ℕ)
    → blocks * 32 ≤ n
    → n ≤ length p
    → n ≤ length q
    → memcmp_blocks blocks n p q ≡ memcmp n p q
unfolding memcmp_blocks
memcmp_blocks_lem zero n p q h hp hq = refl
memcmp_blocks_lem (suc blocks) n p q h hp hq =
    let one = memcmp_block 32 n p q (omega arith) hp hq in
    let rest =
      memcmp_blocks_lem blocks (n - 32) (drop 32 p) (drop 32 q) (omega arith)
        (omega (arith, length-drop 32 p)) (omega (arith, length-drop 32 q)) in
    elim (Option-cases (first_mismatch (take 32 p) (take 32 q))) [
      | inl e ↦ rw (e, memcmp_blocks) (rest ∙ sym (rw e at one))
      | inr (i, e) ↦ rw (e, memcmp_blocks) (sym (rw e at one))
    ]

-- Where both operands have `n` bytes, the vector code and the scalar loop return the same number.
pub memcmp_avx2-memcmp :
    (p q : List ℕ) (n : ℕ) → n ≤ length p → n ≤ length q → memcmp_avx2 p q n ≡ memcmp n p q
unfolding memcmp_avx2
memcmp_avx2-memcmp p q n hp hq = memcmp_blocks_lem (n / 32) n p q (omega arith) hp hq

memcmp-zero_iff :
    (n : ℕ) (p q : List ℕ)
    → n ≤ length p
    → n ≤ length q
    → (memcmp n p q ≡ pos 0) ↔ (take n p ≡ take n q)
unfolding memcmp
memcmp-zero_iff zero p q hp hq = ((λ e. refl), (λ e. refl))
memcmp-zero_iff (suc n) [] q hp hq = absurd (omega arith)
memcmp-zero_iff (suc n) (a ∷ p) [] hp hq = absurd (omega arith)
memcmp-zero_iff (suc n) (a ∷ p) (b ∷ q) hp hq = ground (arith, memcmp-zero_iff n p q)

-- It returns 0 exactly if the first `n` bytes of both are the same.
pub memcmp_avx2-zero_iff :
    (p q : List ℕ) (n : ℕ)
    → n ≤ length p
    → n ≤ length q
    → (memcmp_avx2 p q n ≡ pos 0) ↔ (take n p ≡ take n q)
memcmp_avx2-zero_iff p q n hp hq = rw (memcmp_avx2-memcmp p q n hp hq) (memcmp-zero_iff n p q hp hq)

-- `cg_strcmp` returns 0 exactly if both pointers hold the same string.
pub strcmp-zero_iff : (s t : List ℕ) → (strcmp s t ≡ pos 0) ↔ (c_str s ≡ c_str t)
unfolding strcmp c_str
strcmp-zero_iff [] [] = ((λ e. refl), (λ e. refl))
strcmp-zero_iff [] (b ∷ t) = ground arith
strcmp-zero_iff (a ∷ s) [] = ground arith
strcmp-zero_iff (a ∷ s) (b ∷ t) = ground (arith, strcmp-zero_iff s t)

is_zero_iff : (n : ℤ) → (is_zero n ≡ true) ↔ (n ≡ pos 0)
is_zero_iff n = ground arith

pub same_str_iff : (s t : List ℕ) → (same_str s t ≡ true) ↔ (c_str s ≡ c_str t)
unfolding same_str
same_str_iff s t = ground (arith, strcmp-zero_iff s t, is_zero_iff (strcmp s t))
