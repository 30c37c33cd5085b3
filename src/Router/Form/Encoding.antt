-- ===== src/Router/Form/Encoding.antt =====
-- Forms that are encoded as browsers do, and what the server reads from them.
use compuguessr.Base.{
  ℕ, zero, suc, ◌+◌, ◌-◌, ◌/◌, ◌%◌, ◌<◌, ◌≡◌, refl, ap, ◌∙◌, inl, inr, Bool, true, ◌||◌, ◌&&◌, List,
  [], ◌∷◌, ◌++◌, arith, ◌==◌, leb, ltb, if◌then◌else◌, Bool-cases,
}
use compuguessr.Base.Bits.{bit_or_fields}
use compuguessr.Router.Form.{hex_value, hex_byte, decode}

abbrev pub hex_digit : ℕ → ℕ
hex_digit n = if ltb n 10 then 48 + n else 55 + n

abbrev pub is_plain : ℕ → Bool
is_plain c =
    (leb b'0' c && leb c b'9')
    || (leb b'A' c && leb c b'Z')
    || (leb b'a' c && leb c b'z')
    || (c == b'-')
    || (c == b'_')
    || (c == b'.')
    || (c == b'*')

-- application/x-www-form-urlencoded: letters, digits and four marks as they are, a blank as `+`,
-- every other byte as two hexadecimal digits.
unfoldable pub encode : List ℕ → List ℕ
encode [] = []
encode (c ∷ s) =
    let rest = encode s in
    if is_plain c
    then c ∷ rest
    else if c == b' '
    then b'+' ∷ rest
    else b'%' ∷ hex_digit (c / 16) ∷ hex_digit (c % 16) ∷ rest

upper_hex : (k : ℕ) → k < 6 → hex_value (65 + k) ≡ 10 + k
unfolding hex_value
upper_hex zero h = refl
upper_hex (suc zero) h = refl
upper_hex (suc (suc zero)) h = refl
upper_hex (suc (suc (suc zero))) h = refl
upper_hex (suc (suc (suc (suc zero)))) h = refl
upper_hex (suc (suc (suc (suc (suc zero))))) h = refl
upper_hex (suc (suc (suc (suc (suc (suc k)))))) h = absurd (omega arith)

lower_hex : (n : ℕ) → n < 10 → hex_value (48 + n) ≡ n
unfolding hex_value
lower_hex n h = ground arith

hex_value-hex_digit : (n : ℕ) → n < 16 → hex_value (hex_digit n) ≡ n
hex_value-hex_digit n h = elim (Bool-cases (ltb n 10)) [
  | inl digit ↦ rw digit (lower_hex n (ground arith))
  | inr letter ↦
      let shifted : 55 + n ≡ 65 + (n - 10) = ground arith in
      rw (letter, shifted) (upper_hex (n - 10) (omega arith) ∙ ground arith)
]

hex_byte_lem : (c : ℕ) → c < 256 → hex_byte (hex_digit (c / 16)) (hex_digit (c % 16)) ≡ c
unfolding hex_byte
hex_byte_lem c h =
    let high = hex_value-hex_digit (c / 16) (omega arith) in
    let low = hex_value-hex_digit (c % 16) (omega arith) in
    rw (high, low) (bit_or_fields 4 (c / 16 % 16) (c % 16) (omega arith) ∙ omega arith)

decode_plain : (c : ℕ) (p : List ℕ) → is_plain c ≡ true → decode (c ∷ p) ≡ c ∷ decode p
unfolding decode
decode_plain c [] h = ground arith
decode_plain c (a ∷ []) h = ground arith
decode_plain c (a ∷ b ∷ p) h = ground arith

decode_plus : (p : List ℕ) → decode (b'+' ∷ p) ≡ b' ' ∷ decode p
unfolding decode
decode_plus [] = refl
decode_plus (a ∷ []) = refl
decode_plus (a ∷ b ∷ p) = refl

decode_end : (p : List ℕ) → decode (b'&' ∷ p) ≡ []
unfolding decode
decode_end [] = refl
decode_end (a ∷ []) = refl
decode_end (a ∷ b ∷ p) = refl

decode_percent : (a b : ℕ) (p : List ℕ) → decode (b'%' ∷ a ∷ b ∷ p) ≡ hex_byte a b ∷ decode p
unfolding decode
decode_percent a b p = refl

-- Bytes.
abbrev pub IsText : List ℕ → Type 0
IsText [] = Unit {0}
IsText (c ∷ s) = (c < 256) × IsText s

-- What may stand behind a value: nothing, or the next field.
abbrev pub ends : List ℕ → Bool
ends [] = true
ends (c ∷ p) = c == b'&'

decode_nil : decode [] ≡ []
unfolding decode
decode_nil = refl

pub decode-encode : (s p : List ℕ) → IsText s → ends p ≡ true → decode (encode s ++ p) ≡ s
unfolding encode
decode-encode [] [] t e = decode_nil
decode-encode [] (c ∷ p) t e = let amp : c ≡ b'&' = ground arith in rw amp (decode_end p)
decode-encode (c ∷ s) p (small, t) e =
    let rest = decode-encode s p t e in
    elim (Bool-cases (is_plain c)) [
      | inl plain ↦ rw plain (decode_plain c (encode s ++ p) plain ∙ ap (◌∷◌ c) rest)
      | inr other ↦ elim (Bool-cases (c == b' ')) [
        | inl blank ↦
            let same : c ≡ b' ' = ground arith in
            rw (other, blank) (decode_plus (encode s ++ p) ∙ rw (rest, same) refl)
        | inr coded ↦
            rw (other, coded)
              (decode_percent (hex_digit (c / 16)) (hex_digit (c % 16)) (encode s ++ p)
                ∙ rw (hex_byte_lem c small, rest) refl)
      ]
    ]
