-- ===== src/Base/Bits.antt =====
-- `&` with a low mask and `|` of disjoint fields, as arithmetic, at every width. The libraries
-- define the native operations by a recursion on binary digits with fuel; `digits_enough` drops it.
use Prim.Native.Nat.{digits, bitwise, bit_and-bitwise, bit_or-bitwise}
use mathlib.Core.WellFounded
use native.Mathlib.Nat.{pow-suc, one-le-pow}
use compuguessr.Base.{
  ℕ, zero, suc, ◌+◌, ◌-◌, ◌*◌, ◌/◌, ◌%◌, ◌^◌, ◌≤◌, ◌<◌, min, max, bit_and, bit_or, ◌≡◌, refl, sym,
  ◌∙◌, ap, arith,
}
use compuguessr.Base.Order.{lt_wf}

module _ (one_sided : ℕ → ℕ) (digit : ℕ → ℕ → ℕ) where
  digits_enough :
      (f g x y : ℕ) → x ≤ f → x ≤ g → digits one_sided digit f x y ≡ digits one_sided digit g x y
  digits_enough zero zero x y p q = refl
  digits_enough zero (suc g) zero y p q = refl
  digits_enough zero (suc g) (suc x) y p q = absurd (omega arith)
  digits_enough (suc f) zero zero y p q = refl
  digits_enough (suc f) zero (suc x) y p q = absurd (omega arith)
  digits_enough (suc f) (suc g) zero y p q = refl
  digits_enough (suc f) (suc g) (suc x) y p q =
      rw (digits_enough f g (suc x / 2) (y / 2) (omega arith) (omega arith))

  bitwise_lowest :
      (x y : ℕ)
      → bitwise one_sided digit (suc x) y
        ≡ bitwise one_sided digit (suc x / 2) (y / 2) * 2 + digit (suc x % 2) (y % 2)
  bitwise_lowest x y =
      omega (arith, digits_enough x (suc x / 2) (suc x / 2) (y / 2) (omega arith) (omega arith))

pub bit_and_lowest : (x y : ℕ) → bit_and x y ≡ bit_and (x / 2) (y / 2) * 2 + min (x % 2) (y % 2)
bit_and_lowest zero y = simp bit_and-bitwise (omega arith)
bit_and_lowest (suc x) y = simp bit_and-bitwise (bitwise_lowest (λ _. 0) min x y)

pub bit_or_lowest : (x y : ℕ) → bit_or x y ≡ bit_or (x / 2) (y / 2) * 2 + max (x % 2) (y % 2)
bit_or_lowest zero y = simp bit_or-bitwise (omega arith)
bit_or_lowest (suc x) y = simp bit_or-bitwise (bitwise_lowest (λ z. z) max x y)

pub bit_and-zero : (x : ℕ) → bit_and x 0 ≡ 0
bit_and-zero x = WellFounded.induction lt_wf {C = λ n. bit_and n 0 ≡ 0} x halve
  where
    halve : (n : ℕ) → ((m : ℕ) → m < n → bit_and m 0 ≡ 0) → bit_and n 0 ≡ 0
    halve zero ih = refl
    halve (suc n) ih = omega (arith, bit_and_lowest (suc n) 0, ih (suc n / 2) (omega arith))

pub bit_or-zero : (x : ℕ) → bit_or x 0 ≡ x
bit_or-zero x = WellFounded.induction lt_wf {C = λ n. bit_or n 0 ≡ n} x halve
  where
    halve : (n : ℕ) → ((m : ℕ) → m < n → bit_or m 0 ≡ m) → bit_or n 0 ≡ n
    halve zero ih = refl
    halve (suc n) ih = omega (arith, bit_or_lowest (suc n) 0, ih (suc n / 2) (omega arith))

pub bit_or_zero : (y : ℕ) → bit_or 0 y ≡ y
bit_or_zero y = simp bit_or-bitwise refl

pub bit_or_comm : (x y : ℕ) → bit_or x y ≡ bit_or y x
bit_or_comm x = WellFounded.induction lt_wf {C = λ n. (y : ℕ) → bit_or n y ≡ bit_or y n} x halve
  where
    halve :
        (n : ℕ)
        → ((m : ℕ) → m < n → (y : ℕ) → bit_or m y ≡ bit_or y m)
        → (y : ℕ) → bit_or n y ≡ bit_or y n
    halve zero ih y = bit_or_zero y ∙ sym (bit_or-zero y)
    halve (suc n) ih y = omega (
      arith,
      bit_or_lowest (suc n) y,
      bit_or_lowest y (suc n),
      ih (suc n / 2) (omega arith) (y / 2),
    )

times_double : (q k : ℕ) → q * 2 ^ suc k ≡ 2 * (q * 2 ^ k)
times_double q k = omega (arith, ap (λ (t : ℕ). q * t) (pow-suc 2 k))

mask_of_sum : (k q r : ℕ) → r < 2 ^ k → bit_and (q * 2 ^ k + r) (2 ^ k - 1) ≡ r
mask_of_sum zero q r fits = rw bit_and-zero (omega arith)
mask_of_sum (suc k) q r fits = ground (
  arith,
  bit_and_lowest (q * 2 ^ suc k + r) (2 ^ suc k - 1),
  times_double q k,
  pow-suc 2 k,
  mask_of_sum k q (r / 2) (omega arith),
)

-- `x & (2 ^ k - 1)` is the remainder by `2 ^ k`.
pub bit_and_mask : (k x : ℕ) → bit_and x (2 ^ k - 1) ≡ x % 2 ^ k
bit_and_mask k x = ground (arith, one-le-pow k 2, mask_of_sum k (x / 2 ^ k) (x % 2 ^ k))

-- A mask that is 0 below the bit `k` leaves nothing of what stands below it.
pub bit_and_fields :
    (k q r m : ℕ) → r < 2 ^ k → bit_and (q * 2 ^ k + r) (m * 2 ^ k) ≡ bit_and q m * 2 ^ k
bit_and_fields zero q r m fits =
    let none_left : r ≡ 0 = omega arith in
    let left : q * 2 ^ 0 + r ≡ q = omega arith in
    let right : m * 2 ^ 0 ≡ m = omega arith in rw (left, right) (omega arith)
bit_and_fields (suc k) q r m fits = ground (
  arith,
  bit_and_lowest (q * 2 ^ suc k + r) (m * 2 ^ suc k),
  times_double q k,
  times_double m k,
  times_double (bit_and q m) k,
  pow-suc 2 k,
  bit_and_fields k q (r / 2) m (omega arith),
)

-- `(hi << k) | lo` is a sum where `lo` has `k` bits.
pub bit_or_fields : (k hi lo : ℕ) → lo < 2 ^ k → bit_or (hi * 2 ^ k) lo ≡ hi * 2 ^ k + lo
bit_or_fields zero hi lo fits = ground (arith, bit_or-zero hi)
bit_or_fields (suc k) hi lo fits = ground (
  arith,
  bit_or_lowest (hi * 2 ^ suc k) lo,
  times_double hi k,
  bit_or_fields k hi (lo / 2) (omega arith),
)
