-- ===== src/Util/Digits.antt =====
-- `cg_write_digits2` and `cg_write_digits4` of include/util/cg_util.h: the bytes that they write.
use compuguessr.Base.{ℕ, ◌+◌, ◌-◌, ◌*◌, ◌/◌, ◌%◌, ◌^◌, ◌<◌, ◌≡◌, List, [], ◌∷◌, arith}
use compuguessr.Base.Words.{u8}
use compuguessr.Util.Division.{div10_u32, div10_u32_lem}

-- `(char)('0' + (val - prod * 10))`
abbrev pub digit : ℕ → ℕ → ℕ
digit val prod = u8 (48 + (val - prod * 10))

unfoldable pub write_digits2 : ℕ → List ℕ
write_digits2 val = let prod = div10_u32 val in u8 (48 + prod) ∷ digit val prod ∷ []

unfoldable pub write_digits4 : ℕ → List ℕ
write_digits4 val =
    let tens = div10_u32 val in
    let hundreds = div10_u32 tens in
    let thousands = div10_u32 hundreds in
    let rest = div10_u32 thousands in
    digit thousands rest ∷ digit hundreds thousands ∷ digit tens hundreds ∷ digit val tens ∷ []

-- The number that decimal digits stand for.
unfoldable pub read_digits : ℕ → List ℕ → ℕ
read_digits sum [] = sum
read_digits sum (c ∷ cs) = read_digits (sum * 10 + (c - 48)) cs

div10_is : (x : ℕ) → x < 2 ^ 32 → div10_u32 x ≡ x / 10
div10_is x h = div10_u32_lem x h

digit_value : (x : ℕ) → digit x (x / 10) - 48 ≡ x % 10
digit_value x = omega arith

-- Read back as decimal digits, what is written for a number below 100 by `cg_write_digits2`, and
-- for one below 10000 by `cg_write_digits4`, is that number.
pub write_digits_read :
    (x y : ℕ)
    → x < 100
    → y < 10000
    → (read_digits 0 (write_digits2 x) ≡ x) × (read_digits 0 (write_digits4 y) ≡ y)
unfolding write_digits2 write_digits4 read_digits
write_digits_read x y hx hy =
    let one = div10_is x (omega arith) in
    let tens = div10_is y (omega arith) in
    let hundreds = div10_is (y / 10) (omega arith) in
    let thousands = div10_is (y / 10 / 10) (omega arith) in
    let rest = div10_is (y / 10 / 10 / 10) (omega arith) in
    rw (one, tens, hundreds, thousands, rest)
      (
        omega (arith, digit_value x),
        omega (
          arith,
          digit_value y,
          digit_value (y / 10),
          digit_value (y / 10 / 10),
          digit_value (y / 10 / 10 / 10),
        ),
      )
