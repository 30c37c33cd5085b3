-- ===== src/Router/Safe/Forms.antt =====
-- `cg_get_form_value` ends on every string.
use compuguessr.Base.{
  ℕ, zero, suc, ◌+◌, ◌≤◌, ◌<◌, refl, inl, inr, Option, none, some, List, [], ◌∷◌, arith, length,
  ltb, Bool-cases, Option-cases,
}
use compuguessr.Router.Form.{next_field, after_key, decode, fits_in, find_value, get_form_value}
use compuguessr.Router.Form.Reading.{find_value_round, find_value_end}
use compuguessr.Router.Safe.{Settles}

length-next_field : (p : List ℕ) → length (next_field p) ≤ length p
unfolding next_field
length-next_field [] = omega arith
length-next_field (c ∷ p) = ground (arith, length-next_field p)

next_field_shorter : (c : ℕ) (p : List ℕ) → length (next_field (c ∷ p)) ≤ length p
unfolding next_field
next_field_shorter c p = ground (arith, length-next_field p)

-- A value that was found leaves room for its NUL.
abbrev pub Fits : ℕ → Option (List ℕ) → Type 0
Fits size none = Unit {0}
Fits size (some value) = length value < size

fits_in-Settles : (size : ℕ) (value : List ℕ) → Settles (Fits size) (fits_in size value)
unfolding fits_in
fits_in-Settles size value = elim (Bool-cases (ltb (length value) size)) [
  | inl fits ↦ inr (some value, rw fits refl, ground arith)
  | inr over ↦ inl (rw over refl)
]

find_value-Settles :
    (fuel : ℕ) (p key : List ℕ) (size : ℕ)
    → length p < fuel
    → Settles (Fits size) (find_value fuel p key size)
find_value-Settles zero p key size h = absurd (omega arith)
find_value-Settles (suc fuel) [] key size h = inr (none, find_value_end fuel key size, tt)
find_value-Settles (suc fuel) (c ∷ p) key size h =
    let rest =
      find_value-Settles fuel (next_field (c ∷ p)) key size
        (omega (arith, next_field_shorter c p)) in
    rw (find_value_round fuel (c ∷ p) key size (omega arith))
      (elim (Option-cases (after_key (c ∷ p) key)) [
        | inl e ↦ rw e rest
        | inr (value, e) ↦ rw e (fits_in-Settles size (decode value))
      ])

-- On every string the search for a key ends; it fails only where the value does not fit.
pub get_form_value-Settles :
    (qs key : List ℕ) (size : ℕ) → Settles (Fits size) (get_form_value qs key size)
unfolding get_form_value
get_form_value-Settles qs key size = find_value-Settles (length qs + 1) qs key size (omega arith)
