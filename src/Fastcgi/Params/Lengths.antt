-- ===== src/Fastcgi/Params/Lengths.antt =====
-- The lengths of names and values, as the parser of parameters reads them.
use compuguessr.Base.{
  ℕ, ◌+◌, ◌*◌, ◌%◌, ◌^◌, ◌≤◌, ◌<◌, ◌≡◌, refl, ◌∙◌, ap, ◌⊎◌, inl, inr, bit_or, true, false, List,
  Run, ok, fail, no_fuel, Returns, arith, length, take, drop, get_or, get_elem?-eq-get_or, ◌==◌,
  ltb, leb, Bool-cases,
}
use compuguessr.Base.Bits.{bit_and_mask, bit_or_fields}
use compuguessr.Base.Words.{u32}
use compuguessr.Request.{Request, IsValid}
use compuguessr.Fastcgi.Params.{byte, slice, long_len, fastcgi_len, is_name}

abbrev pub IsBytes : List ℕ → Type 0
IsBytes buf = (i : ℕ) → get_or buf i 0 < 256

long_len_sum :
    (a b c d : ℕ)
    → b < 256
    → c < 256
    → d < 256
    → long_len a b c d ≡ a % 128 * 2 ^ 24 + b * 2 ^ 16 + c * 2 ^ 8 + d
long_len_sum a b c d hb hc hd =
    let high = bit_and_mask 7 a in
    let two = bit_or_fields 24 (a % 128) (b * 2 ^ 16) (omega arith) in
    let three = bit_or_fields 16 (a % 128 * 2 ^ 8 + b) (c * 2 ^ 8) (omega arith) in
    let four = bit_or_fields 8 (a % 128 * 2 ^ 16 + b * 2 ^ 8 + c) d hd in
    rw (high, two)
      (ap (λ x. bit_or (bit_or x (c * 2 ^ 8)) d) (omega arith)
        ∙ ap (λ x. bit_or x d) three
        ∙ ap (λ x. bit_or x d) (omega arith)
        ∙ four
        ∙ omega arith)

-- A length that was read, and the offset behind it.
pub record IsLen (limit offset : ℕ) (r : ℕ × ℕ) : Type 0 where
  pub small : r.0 < 2 ^ 31
  pub later : offset ≤ r.1
  pub inside : r.1 ≤ limit

module _ (payload : List ℕ) (content_len : ℕ) (bytes : IsBytes payload)
    (fits : content_len ≤ length payload) (limit : content_len < 2 ^ 16) where
  pub byte_lem : (i : ℕ) → i < content_len → byte payload i ≡ ok (get_or payload i 0)
  byte_lem i lt = rw (get_elem?-eq-get_or payload i 0 (omega arith), byte)

  pub fastcgi_len-IsLen :
      (offset : ℕ)
      → offset ≤ content_len
      → Returns (fastcgi_len payload offset content_len) (IsLen content_len offset)
  unfolding fastcgi_len
  fastcgi_len-IsLen offset h = elim (Bool-cases (leb content_len offset)) [
    | inl past ↦
        rw past ((0, offset), refl, record { small = omega arith; later = omega arith; inside = h })
    | inr within ↦
        let lt : offset < content_len = ground arith in
        let at = get_or payload in
        rw (within, byte_lem offset lt)
          (elim (Bool-cases (ltb (at offset 0) 128)) [
            | inl short ↦ rw short (
              (at offset 0, u32 (offset + 1)),
              refl,
              record { small = ground arith; later = omega arith; inside = omega arith },
            )
            | inr long ↦ rw long (elim (Bool-cases (ltb content_len (u32 (offset + 4)))) [
              | inl cut ↦ rw cut (
                (0, offset),
                refl,
                record { small = omega arith; later = omega arith; inside = h },
              )
              | inr room ↦
                  let four : offset + 4 ≤ content_len = ground arith in
                  let sum =
                    long_len_sum (at offset 0) (at (offset + 1) 0) (at (offset + 2) 0)
                      (at (offset + 3) 0) (bytes _) (bytes _) (bytes _) in
                  rw
                    (
                      room,
                      byte_lem (offset + 1) (omega arith),
                      byte_lem (offset + 2) (omega arith),
                      byte_lem (offset + 3) (omega arith),
                    )
                    (
                      _,
                      refl,
                      record {
                        small = omega (
                          arith,
                          sum,
                          bytes (offset + 1),
                          bytes (offset + 2),
                          bytes (offset + 3),
                        );
                        later = omega arith;
                        inside = omega arith;
                      },
                    )
            ])
          ])
  ]

  -- The end of the loop: out of fuel, or a valid request.
  abbrev pub Safe : Run Request → Type 0
  Safe r = (r ≡ fail no_fuel) ⊎ Returns r IsValid

  pub slice_lem :
      (off n : ℕ) → off + n ≤ content_len → slice payload off n ≡ ok (take n (drop off payload))
  unfolding slice
  slice_lem off n h = ground arith

  pub is_name-Returns :
      (off n_len : ℕ) (text : List ℕ)
      → off + n_len ≤ content_len
      → Returns (is_name payload off n_len text) (λ b. b ≡ true → n_len ≡ length text)
  unfolding is_name
  is_name-Returns off n_len text h = elim (Bool-cases (n_len == length text)) [
    | inl same ↦
        let eq : n_len ≡ length text = ground arith in
        rw (same, slice_lem off (length text) (omega arith)) (_, refl, λ _. eq)
    | inr other ↦ rw other (false, refl, λ e. absurd (cc))
  ]

-- Another length is no match, and nothing is read.
