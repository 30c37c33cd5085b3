-- ===== src/Router/Text/Decimal.antt =====
-- Numbers that are written by `cg_utoa` read back.
use compuguessr.Base.{
  ℕ, zero, suc, ◌+◌, ◌-◌, ◌*◌, ◌/◌, ◌%◌, ◌^◌, ◌≤◌, ◌<◌, ◌≡◌, refl, ◌∙◌, true, List, [], ◌∷◌, arith,
  length, ◌==◌, Bool-cases, inl, inr,
}
use compuguessr.Base.Words.{u8, u64}
use native.Mathlib.Nat.{pow-suc}
use compuguessr.Router.Text.{div10_u64, utoa_digits, utoa, is_digit, parse_uint}

pub div10_u64_lem : (n : ℕ) → n < 2 ^ 64 → div10_u64 n ≡ n / 10
unfolding div10_u64
div10_u64_lem n h = omega arith

-- With the digits behind it, a number is what the reader holds after its digits.
utoa_digits_read :
    (room n : ℕ) (digits : List ℕ)
    → n < 10 ^ room
    → n < 2 ^ 64
    → parse_uint 0 (utoa_digits room n digits) ≡ parse_uint n digits
unfolding utoa_digits parse_uint
utoa_digits_read zero n digits h small = let none_left : n ≡ 0 = omega arith in rw none_left refl
utoa_digits_read (suc room) n digits h small =
    let q : div10_u64 n ≡ n / 10 = div10_u64_lem n small in
    let digit : u8 (48 + (n - n / 10 * 10)) ≡ 48 + n % 10 = omega arith in
    let shown : is_digit (48 + n % 10) ≡ true = ground arith in
    let value : u64 (n / 10 * 10 + (48 + n % 10 - 48)) ≡ n = omega arith in
    let rest =
      utoa_digits_read room (n / 10) ((48 + n % 10) ∷ digits) (omega (arith, pow-suc 10 room))
        (omega arith) in
    rw (q, digit)
      (elim (Bool-cases (n / 10 == 0)) [
        | inl last ↦
            let low : u64 (0 * 10 + (48 + n % 10 - 48)) ≡ n = ground arith in
            rw (last, shown, low) refl
        | inr more ↦ rw more (rest ∙ rw (shown, value) refl)
      ])

-- A session id that was sent as text reads back, for every `uint64_t`: twenty digits are enough.
pub utoa_read : (n : ℕ) → n < 2 ^ 64 → parse_uint 0 (utoa n) ≡ n
unfolding parse_uint
utoa_read n small = utoa_digits_read 20 n [] (omega arith) small

pub length-utoa_digits :
    (room n : ℕ) (digits : List ℕ) → length (utoa_digits room n digits) ≤ room + length digits
unfolding utoa_digits
length-utoa_digits zero n digits = omega arith
length-utoa_digits (suc room) n digits =
    ground
      (arith, length-utoa_digits room (div10_u64 n) (u8 (48 + (n - div10_u64 n * 10)) ∷ digits))
