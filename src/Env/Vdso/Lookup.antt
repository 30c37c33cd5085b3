-- ===== src/Env/Vdso/Lookup.antt =====
-- The symbol that `cg_vdso_func` finds.
use native.Mathlib.Decide.{dec_lt}
use mathlib.Core.List.{append_assoc}
use compuguessr.Base.{
  ℕ, zero, suc, ◌+◌, ◌≤◌, ◌<◌, ◌≡◌, refl, sym, ap, ◌∙◌, ◌↔◌, inl, inr, true, false, Option, none,
  some, List, [], ◌∷◌, ◌++◌, arith, length, length-append, take, take-append, drop, ◌==◌,
  Bool-cases,
}
use compuguessr.Base.Int.{pos}
use compuguessr.Base.Places.{take-drop}
use compuguessr.Base.Text.{c_str, c_str-append, c_str-NoNul}
use compuguessr.Env.Vdso.{
  Image, Sym, has_name, find_sym, find_dynamic, find_tables, vdso_func, address_of,
}
use compuguessr.Util.Memory.{memcmp_avx2, memcmp_avx2-zero_iff}

-- Memory that goes on behind the string holds its NUL.
ended : (p : List ℕ) → length (c_str p) < length p → (rest : List ℕ) × (p ≡ c_str p ++ 0 ∷ rest)
unfolding c_str
ended [] h = absurd (omega arith)
ended (c ∷ p) h = elim (Bool-cases (c == 0)) [
  | inl e ↦ let nul : c ≡ 0 = ground arith in rw e (p, rw nul refl)
  | inr e ↦
      let (rest, split) = ended p (omega (arith, rw e at h)) in rw e (rest, ap (λ l. c ∷ l) split)
]

-- One byte more than the name is compared, so the NULs are.
same_name_iff :
    (p name : List ℕ)
    → length (c_str name) < length p
    → length (c_str name) < length name
    → (memcmp_avx2 p name (length (c_str name) + 1) ≡ pos 0) ↔ (c_str p ≡ c_str name)
same_name_iff p name long named =
    let n = length (c_str name) + 1 in
    let same = memcmp_avx2-zero_iff p name n (omega arith) (omega arith) in
    let (rest, whole) = ended name named in
    let s = c_str name ++ 0 ∷ [] in
    let size : length s ≡ n = omega (arith, length-append (c_str name) (0 ∷ [])) in
    let first : take n name ≡ s =
      ap (take n) (whole ∙ sym (append_assoc (c_str name) (0 ∷ []) rest))
      ∙ rw size at (take-append s rest) in
    (
      (λ e.
          let start = same.0 e ∙ first in
          let split = take-drop n p in
          let text : p ≡ c_str name ++ 0 ∷ drop n p =
            sym split
            ∙ ap (λ l. l ++ drop n p) start
            ∙ append_assoc (c_str name) (0 ∷ []) (drop n p) in
          ap c_str text ∙ c_str-append (c_str name) (drop n p) (c_str-NoNul name)),
      (λ e.
          let (more, text) = ended p (rw e long) in
          let text' : p ≡ s ++ more = text ∙ rw e (sym (append_assoc (c_str name) (0 ∷ []) more)) in
          let start : take n p ≡ s = ap (take n) text' ∙ rw size at (take-append s more) in
          same.1 (start ∙ sym first)),
    )

-- The symbol of this number has the name.
pub record Names (image : Image) (sym_at str : ℕ) (name : List ℕ) (i : ℕ) : Type 0 where
  pub used : 0 < (image.syms sym_at i).st_name
  pub same : c_str (image.bytes (str + (image.syms sym_at i).st_name)) ≡ c_str name

-- The first symbol of the name, of those from `i` to `end`; or there is none.
abbrev pub IsFound : Image → ℕ → ℕ → List ℕ → ℕ → ℕ → Option Sym → Type 0
IsFound image sym_at str name i end none =
    (j : ℕ) → i ≤ j → j < end → ¬ Names image sym_at str name j
IsFound image sym_at str name i end (some s) =
    (k : ℕ) × (k < end)
    × (image.syms sym_at k ≡ s)
    × Names image sym_at str name k
    × ((j : ℕ) → i ≤ j → j < k → ¬ Names image sym_at str name j)

module _ (image : Image) (sym_at str : ℕ) (name : List ℕ)
    (named : length (c_str name) < length name) where
  has_name_iff :
      (i : ℕ)
      → length (c_str name) < length (image.bytes (str + (image.syms sym_at i).st_name))
      → (has_name image str name (image.syms sym_at i) ≡ true) ↔ Names image sym_at str name i
  has_name_iff i long =
      let here = image.syms sym_at i in
      let same = same_name_iff (image.bytes (str + here.st_name)) name long named in
      (
        (λ e. record { used = ground arith; same = same.0 (ground arith) }),
        (λ n. ground (arith, same.1 n.same, n.used)),
      )

  IsFound-later :
      (i end : ℕ) (r : Option Sym)
      → ¬ Names image sym_at str name i
      → IsFound image sym_at str name (i + 1) end r
      → IsFound image sym_at str name i end r
  IsFound-later i end none other f = λ j lo hi. elim (dec_lt i j) [
    | yes later ↦ f j (omega arith) hi
    | no here ↦ let same : j ≡ i = omega arith in rw same other
  ]
  IsFound-later i end (some s) other (k, inside, at, named_k, before) = (
    k,
    inside,
    at,
    named_k,
    λ j lo hi. elim (dec_lt i j) [
      | yes later ↦ before j (omega arith) hi
      | no here ↦ let same : j ≡ i = omega arith in rw same other
    ],
  )

  -- Behind each name that is compared, memory goes on.
  module _
      (readable : (i : ℕ)
        → i < 50
        → length (c_str name) < length (image.bytes (str + (image.syms sym_at i).st_name))) where
    find_sym-IsFound :
        (left i : ℕ)
        → i + left ≤ 50
        → IsFound image sym_at str name i (i + left) (find_sym image sym_at str name left i)
    unfolding find_sym
    find_sym-IsFound zero i h = λ j lo hi. absurd (omega arith)
    find_sym-IsFound (suc left) i h =
        let test = has_name_iff i (readable i (omega arith)) in
        let next : i + 1 + left ≡ i + suc left = omega arith in
        let rest = find_sym-IsFound left (i + 1) (omega arith) in
        elim (Bool-cases (has_name image str name (image.syms sym_at i))) [
          | inl yes_named ↦
              rw yes_named (i, omega arith, refl, test.0 yes_named, λ j lo hi. absurd (omega arith))
          | inr not_named ↦
              let other : ¬ Names image sym_at str name i = λ n. ground (arith, test.1 n) in
              rw not_named (IsFound-later i (i + suc left) _ other (rw next at rest))
        ]

-- Where the image has a dynamic section with both tables, and memory goes on behind the names that
-- are compared, the result is the address of the first of the 50 symbols with exactly this name,
-- and null if none has it.
pub vdso_func-IsFound :
    (base : ℕ) (image : Image) (name : List ℕ) (dyn sym_at str : ℕ)
    → 0 < base
    → find_dynamic image.phdrs ≡ some dyn
    → find_tables none none (image.dyns dyn) ≡ (some sym_at, some str)
    → length (c_str name) < length name
    → ((i : ℕ)
        → i < 50
        → length (c_str name) < length (image.bytes (str + (image.syms sym_at i).st_name)))
    → (r : Option Sym) × (vdso_func base image name ≡ address_of base r)
      × IsFound image sym_at str name 0 50 r
unfolding vdso_func
vdso_func-IsFound base image name dyn sym_at str mapped section tables named readable =
    let some_base : base == 0 ≡ false = ground arith in
    (
      find_sym image sym_at str name 50 0,
      rw (some_base, section, tables) refl,
      find_sym-IsFound image sym_at str name named readable 50 0 (omega arith),
    )
