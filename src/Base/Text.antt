-- ===== src/Base/Text.antt =====
-- Text literals as bytes, and C strings in buffers.
use mathlib.Core.List.{append_assoc}
use Prim.Native.Char.{code}
use Prim.Native.String.{String}
use compuguessr.Base.{
  ℕ, zero, suc, ◌+◌, ◌≤◌, ◌<◌, ◌≡◌, refl, List, [], ◌∷◌, ◌++◌, arith, length, take, drop,
  length-append, length-take, length-drop, take-append_add, take-append, ap, ◌∙◌, ◌==◌,
  if◌then◌else◌,
}

-- The bytes of an ASCII text.
abbrev pub codes : String → List ℕ
codes String.[] = []
codes (String.◌∷◌ c s) = code c ∷ codes s

-- The string that starts a buffer: its bytes up to the first NUL.
unfoldable pub c_str : List ℕ → List ℕ
c_str [] = []
c_str (c ∷ cs) = let rest = c_str cs in if c == 0 then [] else c ∷ rest

-- Copies `src` to `buf + off`. (Past the end, which C leaves undefined, the list grows.)
unfoldable pub write : List ℕ → ℕ → List ℕ → List ℕ
write buf off src = take off buf ++ (src ++ drop (off + length src) buf)

-- Copies `src` and a NUL to the start of `buf`.
unfoldable pub write_str : List ℕ → List ℕ → List ℕ
unfolding write
write_str buf src = write buf 0 (src ++ 0 ∷ [])

pub length-write :
    (buf : List ℕ) (off : ℕ) (src : List ℕ)
    → off + length src ≤ length buf
    → length (write buf off src) ≡ length buf
unfolding write
length-write buf off src fits = omega (
  arith,
  length-append (take off buf ++ src) (drop (off + length src) buf),
  length-append (take off buf) src,
  length-append (take off buf) (src ++ drop (off + length src) buf),
  length-append src (drop (off + length src) buf),
  length-take off buf,
  length-drop (off + length src) buf,
)

-- What stands before the end of the bytes that were written.
pub take-write :
    (buf : List ℕ) (off : ℕ) (src : List ℕ)
    → off ≤ length buf
    → take (off + length src) (write buf off src) ≡ take off buf ++ src
unfolding write
take-write buf off src h =
    let rest = drop (off + length src) buf in
    let sized : length (take off buf) ≡ off = omega (arith, length-take off buf) in
    let split = take-append_add (take off buf) (src ++ rest) (length src) in
    rw sized at split ∙ ap (λ l. take off buf ++ l) (take-append src rest)

-- No byte of the string is NUL.
abbrev pub NoNul : List ℕ → Type 0
NoNul [] = Unit {0}
NoNul (c ∷ cs) = (0 < c) × NoNul cs

pub c_str-NoNul : (buf : List ℕ) → NoNul (c_str buf)
unfolding c_str
c_str-NoNul [] = tt
c_str-NoNul (c ∷ cs) = ground (arith, c_str-NoNul cs)

pub c_str-append : (s rest : List ℕ) → NoNul s → c_str (s ++ 0 ∷ rest) ≡ s
unfolding c_str
c_str-append [] rest h = refl
c_str-append (c ∷ s) rest h = ground (arith, c_str-append s rest h.1)

pub NoNul-take : (n : ℕ) (s : List ℕ) → NoNul s → NoNul (take n s)
NoNul-take zero s h = tt
NoNul-take (suc n) [] h = tt
NoNul-take (suc n) (c ∷ s) (pos, rest) = (pos, NoNul-take n s rest)

-- A string that was copied with its NUL reads back.
pub c_str-write_str : (buf s : List ℕ) → NoNul s → c_str (write_str buf s) ≡ s
unfolding write_str
c_str-write_str buf s h =
    let rest = drop (0 + length (s ++ 0 ∷ [])) buf in
    let whole = append_assoc s (0 ∷ []) rest in rw whole (c_str-append s rest h)
