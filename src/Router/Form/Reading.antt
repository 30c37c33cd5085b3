-- ===== src/Router/Form/Reading.antt =====
-- Forms of several fields, and what `cg_get_form_value` reads for a key.
use compuguessr.Base.{
  ℕ, zero, suc, ◌+◌, ◌/◌, ◌%◌, ◌≤◌, ◌<◌, ◌≡◌, refl, ◌∙◌, inl, inr, Bool, true, false, ◌&&◌, Option,
  none, some, List, [], ◌∷◌, ◌++◌, Run, ok, arith, length, length-append, ◌==◌, if◌then◌else◌,
  Bool-cases,
}
use compuguessr.Router.Form.{decode, after_key, next_field, fits_in, find_value, get_form_value}
use compuguessr.Router.Form.Encoding.{is_plain, encode, hex_digit, IsText, ends, decode-encode}

abbrev pub same_key : List ℕ → List ℕ → Bool
same_key [] [] = true
same_key [] (k ∷ key) = false
same_key (c ∷ s) [] = false
same_key (c ∷ s) (k ∷ key) = c == k && same_key s key

abbrev pub all_plain : List ℕ → Bool
all_plain [] = true
all_plain (c ∷ s) = is_plain c && all_plain s

-- The fields of a form, by name and value.
abbrev pub Fields : Type 0
Fields = List (List ℕ × List ℕ)

abbrev pub AreFields : Fields → Type 0
AreFields [] = Unit {0}
AreFields ((k, v) ∷ fs) = (all_plain k ≡ true) × IsText v × AreFields fs

abbrev pub more_fields : Fields → List ℕ
more_fields [] = []
more_fields ((k, v) ∷ fs) = b'&' ∷ (k ++ b'=' ∷ (encode v ++ more_fields fs))

-- The body of the request.
abbrev pub form : Fields → List ℕ
form [] = []
form ((k, v) ∷ fs) = k ++ b'=' ∷ (encode v ++ more_fields fs)

-- The value of the first field of that name.
abbrev pub lookup : List ℕ → Fields → Option (List ℕ)
lookup key [] = none
lookup key ((k, v) ∷ fs) = if same_key k key then some v else lookup key fs

after_key_same : (k key r : List ℕ) → same_key k key ≡ true → after_key (k ++ b'=' ∷ r) key ≡ some r
unfolding after_key
after_key_same [] [] r h = refl
after_key_same [] (d ∷ key) r h = absurd (ground arith)
after_key_same (c ∷ k) [] r h = absurd (ground arith)
after_key_same (c ∷ k) (d ∷ key) r h = ground (arith, after_key_same k key r)

after_key_other :
    (k key r : List ℕ)
    → all_plain k ≡ true
    → all_plain key ≡ true
    → same_key k key ≡ false
    → after_key (k ++ b'=' ∷ r) key ≡ none
unfolding after_key
after_key_other [] [] r p q h = absurd (ground arith)
after_key_other [] (d ∷ key) r p q h = ground arith
after_key_other (c ∷ k) [] r p q h = ground arith
after_key_other (c ∷ k) (d ∷ key) r p q h = ground (arith, after_key_other k key r)

skip_plain : (k r : List ℕ) → all_plain k ≡ true → next_field (k ++ r) ≡ next_field r
unfolding next_field
skip_plain [] r h = refl
skip_plain (c ∷ k) r h = ground (arith, skip_plain k r)

skip_byte : (c : ℕ) (p : List ℕ) → c == b'&' ≡ false → next_field (c ∷ p) ≡ next_field p
unfolding next_field
skip_byte c p h = rw h refl

hex_digit_amp : (n : ℕ) → hex_digit n == b'&' ≡ false
hex_digit_amp n = ground arith

plain_amp : (c : ℕ) → is_plain c ≡ true → c == b'&' ≡ false
plain_amp c h = ground arith

skip_value : (v r : List ℕ) → next_field (encode v ++ r) ≡ next_field r
unfolding encode
skip_value [] r = refl
skip_value (c ∷ v) r =
    let rest = skip_value v r in
    let s = encode v ++ r in
    elim (Bool-cases (is_plain c)) [
      | inl plain ↦ rw plain (skip_byte c s (plain_amp c plain) ∙ rest)
      | inr other ↦ elim (Bool-cases (c == b' ')) [
        | inl blank ↦ rw (other, blank) (skip_byte b'+' s refl ∙ rest)
        | inr coded ↦
            let high = hex_digit (c / 16) in
            let low = hex_digit (c % 16) in
            rw (other, coded)
              (skip_byte b'%' (high ∷ low ∷ s) refl
                ∙ skip_byte high (low ∷ s) (hex_digit_amp (c / 16))
                ∙ skip_byte low s (hex_digit_amp (c % 16))
                ∙ rest)
      ]
    ]

skip_more : (fs : Fields) → next_field (more_fields fs) ≡ form fs
unfolding next_field
skip_more [] = refl
skip_more ((k, v) ∷ fs) = refl

skip_field :
    (k v : List ℕ) (fs : Fields) → all_plain k ≡ true → next_field (form ((k, v) ∷ fs)) ≡ form fs
skip_field k v fs plain =
    skip_plain k (b'=' ∷ (encode v ++ more_fields fs)) plain
    ∙ skip_byte b'=' (encode v ++ more_fields fs) refl
    ∙ skip_value v (more_fields fs)
    ∙ skip_more fs

more_fields-ends : (fs : Fields) → ends (more_fields fs) ≡ true
more_fields-ends [] = refl
more_fields-ends ((k, v) ∷ fs) = refl

form_shorter : (fs : Fields) → length (form fs) ≤ length (more_fields fs)
form_shorter [] = omega arith
form_shorter ((k, v) ∷ fs) = omega arith

-- One round, on a string that is not empty.
pub find_value_round :
    (fuel : ℕ) (p key : List ℕ) (size : ℕ)
    → 0 < length p
    → find_value (suc fuel) p key size ≡ elim (after_key p key) [
      | some value ↦ fits_in size (decode value)
      | none ↦ find_value fuel (next_field p) key size
    ]
unfolding find_value
find_value_round fuel [] key size h = absurd (omega arith)
find_value_round fuel (c ∷ p) key size h = refl

pub find_value_end :
    (fuel : ℕ) (key : List ℕ) (size : ℕ) → find_value (suc fuel) [] key size ≡ ok none
unfolding find_value
find_value_end fuel key size = refl

-- What the server is meant to read for a key.
abbrev pub reads : Option (List ℕ) → ℕ → Run (Option (List ℕ))
reads none size = ok none
reads (some v) size = fits_in size v

find_value_lem :
    (fuel : ℕ) (fs : Fields) (key : List ℕ) (size : ℕ)
    → AreFields fs
    → all_plain key ≡ true
    → length (form fs) < fuel
    → find_value fuel (form fs) key size ≡ reads (lookup key fs) size
find_value_lem zero fs key size t plain enough = absurd (omega arith)
find_value_lem (suc fuel) [] key size t plain enough = find_value_end fuel key size
find_value_lem (suc fuel) ((k, v) ∷ fs) key size (k_plain, text, t) plain enough =
    let rest = encode v ++ more_fields fs in
    let whole = length-append k (b'=' ∷ rest) in
    let tail = length-append (encode v) (more_fields fs) in
    let round = find_value_round fuel (form ((k, v) ∷ fs)) key size (omega arith) in
    elim (Bool-cases (same_key k key)) [
      | inl same ↦
          let here = after_key_same k key rest same in
          let value = decode-encode v (more_fields fs) text (more_fields-ends fs) in
          round ∙ rw (here, value, same) refl
      | inr other ↦
          let missed = after_key_other k key rest k_plain plain other in
          let later = find_value_lem fuel fs key size t plain (omega (arith, form_shorter fs)) in
          round ∙ rw (missed, skip_field k v fs k_plain, other) later
    ]

-- In a form that was encoded as browsers do, with names of letters, digits and plain marks, the
-- server finds for every such name the value of the first field of that name, decoded, where the
-- buffer has room for it and a NUL; a longer value is written past the end of the buffer. For a
-- name that no field has it finds none.
pub get_form_value_reads :
    (fs : Fields) (key : List ℕ) (size : ℕ)
    → AreFields fs
    → all_plain key ≡ true
    → get_form_value (form fs) key size ≡ reads (lookup key fs) size
unfolding get_form_value
get_form_value_reads fs key size t plain =
    find_value_lem (length (form fs) + 1) fs key size t plain (omega arith)
