-- ===== src/Util/Copy/Written.antt =====
-- Copies as the one block that is written: what the other models of this code take a copy for.
use native.Mathlib.Decide.{dec_lt}
use compuguessr.Base.{
  ℕ, ◌+◌, ◌-◌, ◌≤◌, ◌<◌, ◌≡◌, refl, sym, ◌∙◌, ◌⊎◌, inl, inr, List, ◌∷◌, [], ◌++◌, ok, arith, length,
  get_or, take, drop, length-take, length-append, length-set, get_or-set, zero, suc, false, ◌==◌,
  Bool-cases, ltb, set,
}
use compuguessr.Base.Places.{places_ext, get_or-take, get_or-append_left, get_or-append_right}
use compuguessr.Base.Text.{c_str, write}
use compuguessr.Util.Copy.{memcpy, memcpy_avx2, memslide, puts}
use compuguessr.Util.Copy.Moves.{Moves, Fits, Moves-block, memcpy-Moves}
use compuguessr.Util.Copy.Exact.{Clashes, memcpy_avx2-Moves}

-- There is one memory that a copy can leave.
Moves-unique :
    (mem : List ℕ) (dest src n : ℕ) (mem₁ mem₂ : List ℕ)
    → Moves mem dest src n mem₁
    → Moves mem dest src n mem₂
    → mem₁ ≡ mem₂
Moves-unique mem dest src n mem₁ mem₂ a b = places_ext 0 mem₁ mem₂ (a.sized ∙ sym b.sized) (λ i h.
    elim (dec_lt i dest) [
      | yes before ↦ a.below i before ∙ sym (b.below i before)
      | no later ↦ elim (dec_lt i (dest + n)) [
        | no after ↦ a.above i (omega arith) ∙ sym (b.above i (omega arith))
        | yes within ↦
            let place : dest + (i - dest) ≡ i = omega arith in
            let inside : i - dest < n = omega arith in
            rw place at (a.moved (i - dest) inside) ∙ sym (rw place at (b.moved (i - dest) inside))
      ]
    ])

abbrev pub copied : List ℕ → ℕ → ℕ → ℕ → List ℕ
copied mem dest src n = write mem dest (take n (drop src mem))

pub Moves-copied :
    (mem : List ℕ) (dest src n : ℕ) (mem' : List ℕ)
    → Fits mem dest src n
    → Moves mem dest src n mem'
    → mem' ≡ copied mem dest src n
Moves-copied mem dest src n mem' f m =
    Moves-unique mem dest src n mem' (copied mem dest src n) m
      (Moves-block mem dest src n f.writes f.reads)

pub memcpy_lem :
    (mem : List ℕ) (dest src n : ℕ)
    → Fits mem dest src n
    → memcpy n mem dest src ≡ copied mem dest src n
memcpy_lem mem dest src n f = Moves-copied mem dest src n _ f (memcpy-Moves n mem dest src f)

-- Operands that lie apart: the vector code, the byte loop and one write of the block are the same.
pub memcpy_avx2-memcpy :
    (start : ℕ) (mem : List ℕ) (dest src n : ℕ)
    → (dest + n ≤ src) ⊎ (src + n ≤ dest)
    → dest + n ≤ length mem
    → src + n ≤ length mem
    → (memcpy_avx2 start mem dest src n ≡ memcpy n mem dest src)
      × (memcpy n mem dest src ≡ copied mem dest src n)
memcpy_avx2-memcpy start mem dest src n apart writes reads =
    let f : Fits mem dest src n = ground (arith, apart) in
    let safe : ¬ Clashes start dest src n =
      λ c. ground (arith, apart, c.long, c.tail, c.forward, c.near) in
    let exact = Moves-copied mem dest src n _ f (memcpy_avx2-Moves start mem dest src n f safe) in
    let plain = memcpy_lem mem dest src n f in (exact ∙ sym plain, plain)

-- Where no byte is read too late, the bytes from `s2` to the end of the `n` at `s1` now stand at
-- `s1`, and the result points behind them.
pub memslide-Moves :
    (start : ℕ) (mem : List ℕ) (s1 s2 n : ℕ)
    → s1 ≤ s2
    → s2 ≤ s1 + n
    → s1 + n ≤ length mem
    → ¬ Clashes start s1 s2 (s1 + n - s2)
    → (mem' : List ℕ) × (memslide start mem s1 s2 n ≡ ok (s1 + (s1 + n - s2), mem'))
      × Moves mem s1 s2 (s1 + n - s2) mem'
unfolding memslide
memslide-Moves start mem s1 s2 n forward inside fits safe =
    let diff = s1 + n - s2 in
    let f : Fits mem s1 s2 diff = ground arith in
    let checked : ltb (s1 + n) s2 ≡ false = ground arith in
    (
      memcpy_avx2 start mem s1 s2 diff,
      rw checked refl,
      memcpy_avx2-Moves start mem s1 s2 diff f safe,
    )

length-c_str : (str : List ℕ) → length (c_str str) ≤ length str
unfolding c_str
length-c_str [] = omega arith
length-c_str (c ∷ cs) = ground (arith, length-c_str cs)

get_or-c_str :
    (str : List ℕ) (i : ℕ) → i < length (c_str str) → get_or (c_str str) i 0 ≡ get_or str i 0
unfolding c_str
get_or-c_str [] i h = refl
get_or-c_str (c ∷ cs) zero h = elim (Bool-cases (c == 0)) [
  | inl e ↦ absurd (omega (arith, rw e at h))
  | inr e ↦ rw e refl
]
get_or-c_str (c ∷ cs) (suc i) h = elim (Bool-cases (c == 0)) [
  | inl e ↦ absurd (omega (arith, rw e at h))
  | inr e ↦ rw e (get_or-c_str cs i (omega (arith, rw e at h)))
]

-- `cg_puts` writes the string and a newline.
pub puts_lem :
    (array str : List ℕ)
    → length array ≡ length (c_str str) + 2
    → puts array str ≡ c_str str ++ 10 ∷ []
unfolding puts
puts_lem array str sized =
    let len = length (c_str str) in
    let mem = array ++ str in
    let whole = length-append array str in
    let m : Moves mem 0 (length array) len (memcpy len mem 0 (length array)) =
      memcpy-Moves len mem 0 (length array) (ground (arith, length-c_str str)) in
    let done = memcpy len mem 0 (length array) in
    let ended = set done len 10 in
    let size : length ended ≡ length mem = length-set done len 10 ∙ m.sized in
    let size' : length (set ended (len + 1) 0) ≡ length mem = length-set ended (len + 1) 0 ∙ size in
    let left : length (take (len + 1) (set ended (len + 1) 0)) ≡ len + 1 =
      omega (arith, length-take (len + 1) (set ended (len + 1) 0)) in
    places_ext 0 _ _ (omega (arith, length-append (c_str str) (10 ∷ []))) (λ i h.
      let shown = get_or-take (len + 1) (set ended (len + 1) 0) i 0 (omega arith) in
      let ends = get_or-set ended (len + 1) i 0 0 (omega arith) in
      let line = get_or-set done len i 10 0 (omega (arith, m.sized)) in
      elim (dec_lt i len) [
        | yes text ↦
            let moved = m.moved i text in
            let read = get_or-append_right array str i 0 in
            let str_byte = get_or-c_str str i text in
            let text_byte = get_or-append_left (c_str str) (10 ∷ []) i 0 text in
            ground (arith, shown, ends, line, moved, read, str_byte, text_byte)
        | no newline ↦
            let last : len + 0 ≡ i = omega arith in
            let right = rw last at (get_or-append_right (c_str str) (10 ∷ []) 0 0) in
            ground (arith, shown, ends, line, right)
      ])
