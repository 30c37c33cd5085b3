-- ===== src/Time/Calendar.antt =====
-- The Gregorian calendar, by its leap years, and years that begin in March.
use compuguessr.Base.{
  ℕ, zero, suc, ◌+◌, ◌-◌, ◌*◌, ◌/◌, ◌%◌, ◌≤◌, ◌<◌, ◌≡◌, refl, ap, Bool, true, false, not, ◌&&◌,
  ◌||◌, arith, ◌==◌, ltb, if◌then◌else◌, Bool-cases, ◌⊎◌, inl, inr,
}

unfoldable pub is_leap : ℕ → Bool
is_leap y = y % 4 == 0 && (not (y % 100 == 0) || y % 400 == 0)

abbrev pub leap_day : ℕ → ℕ
leap_day y = if is_leap y then 1 else 0

-- The days from the start of the year 0 to the start of the year `y`.
unfoldable pub days_before_year : ℕ → ℕ
unfolding is_leap
days_before_year zero = 0
days_before_year (suc y) = days_before_year y + (365 + leap_day y)

leap_count :
    (y : ℕ) → suc y / 4 + y / 100 + suc y / 400 ≡ y / 4 + suc y / 100 + y / 400 + leap_day (suc y)
unfolding is_leap
leap_count y = elim (Bool-cases (suc y % 4 == 0)) [
  | inr a ↦ rw a (ground arith)
  | inl a ↦ elim (Bool-cases (suc y % 100 == 0)) [
    | inr b ↦ rw (a, b) (ground arith)
    | inl b ↦ elim (Bool-cases (suc y % 400 == 0)) [
      | inl c ↦ rw (a, b, c) (ground arith)
      | inr c ↦ rw (a, b, c) (ground arith)
    ]
  ]
]

closed : (y : ℕ) → days_before_year (suc y) + y / 100 ≡ 365 * y + y / 4 + y / 400 + 366
unfolding days_before_year
closed zero = refl
closed (suc y) = omega (arith, closed y, leap_count y)

unfoldable pub month_length : ℕ → ℕ → ℕ
month_length y m =
    if m == 2 then 28 + leap_day y else if m == 4 || m == 6 || m == 9 || m == 11 then 30 else 31

-- The days from the start of the year to the start of a month, from 1 on.
unfoldable pub days_before_month : ℕ → ℕ → ℕ
unfolding month_length
days_before_month y zero = 0
days_before_month y (suc m) = if m == 0 then 0 else days_before_month y m + month_length y m

-- The first day of a month, counted from the first of March, which is month 0.
abbrev pub march_day : ℕ → ℕ
march_day mp = (153 * mp + 2) / 5

months_from_march :
    (y mp : ℕ)
    → mp < 10
    → (days_before_month y (mp + 3) ≡ 59 + leap_day y + march_day mp)
      × (march_day mp + month_length y (mp + 3) ≡ march_day (mp + 1))
unfolding days_before_month month_length
months_from_march y zero h = (omega arith, omega arith)
months_from_march y (suc zero) h = (omega arith, omega arith)
months_from_march y (suc (suc zero)) h = (omega arith, omega arith)
months_from_march y (suc (suc (suc zero))) h = (omega arith, omega arith)
months_from_march y (suc (suc (suc (suc zero)))) h = (omega arith, omega arith)
months_from_march y (suc (suc (suc (suc (suc zero))))) h = (omega arith, omega arith)
months_from_march y (suc (suc (suc (suc (suc (suc zero)))))) h = (omega arith, omega arith)
months_from_march y (suc (suc (suc (suc (suc (suc (suc zero))))))) h = (omega arith, omega arith)
months_from_march y (suc (suc (suc (suc (suc (suc (suc (suc zero)))))))) h =
    (omega arith, omega arith)
months_from_march y (suc (suc (suc (suc (suc (suc (suc (suc (suc zero))))))))) h =
    (omega arith, omega arith)
months_from_march y (suc (suc (suc (suc (suc (suc (suc (suc (suc (suc mp)))))))))) h =
    absurd (omega arith)

abbrev pub civil_from : ℕ → ℕ → ℕ → ℕ × ℕ × ℕ
civil_from y doy mp =
    (y + (if ltb mp 10 then 0 else 1), if ltb mp 10 then mp + 3 else mp - 9, doy - march_day mp + 1)

-- What is said of a date.
pub record IsDate (date : ℕ × ℕ × ℕ) (days : ℕ) : Type 0 where
  pub month_low : 1 ≤ date.1
  pub month_high : date.1 ≤ 12
  pub day_low : 1 ≤ date.2
  pub day_high : date.2 ≤ month_length date.0 date.1
  pub total : days_before_year date.0 + days_before_month date.0 date.1 + (date.2 - 1) ≡ days

year_start : (y : ℕ) → days_before_year y + leap_day y + y / 100 ≡ 365 * y + y / 4 + y / 400 + 1
unfolding days_before_year
year_start y = omega (arith, closed y)

module _ (y doy : ℕ) (few : doy < 366) (leap : doy ≡ 365 → leap_day (suc y) ≡ 1) where
  abbrev mp : ℕ
  mp = (5 * doy + 2) / 153

  starts : march_day mp ≤ doy
  starts = omega arith

  ends : doy < march_day (mp + 1)
  ends = omega arith

  -- From March to December.
  spring-IsDate :
      mp < 10
      → IsDate (y, mp + 3, doy - march_day mp + 1) (365 * y + y / 4 + y / 400 - y / 100 + 60 + doy)
  spring-IsDate h =
      let (before, long) = months_from_march y mp h in
      record {
        month_low = omega arith;
        month_high = omega arith;
        day_low = omega arith;
        day_high = omega (arith, starts, ends, long);
        total = omega (arith, year_start y, before, starts);
      }

  january :
      mp ≡ 10
      → IsDate (suc y, 1, doy - march_day mp + 1) (365 * y + y / 4 + y / 400 - y / 100 + 60 + doy)
  unfolding month_length days_before_month
  january h = record {
    month_low = omega arith;
    month_high = omega arith;
    day_low = omega arith;
    day_high = omega (arith, starts, ends, ap march_day h);
    total = omega (arith, closed y, starts, ap march_day h);
  }

  february :
      mp ≡ 11
      → IsDate (suc y, 2, doy - march_day mp + 1) (365 * y + y / 4 + y / 400 - y / 100 + 60 + doy)
  unfolding month_length days_before_month
  february h = record {
    month_low = omega arith;
    month_high = omega arith;
    day_low = omega arith;
    day_high = ground (arith, starts, leap, ap march_day h);
    total = omega (arith, closed y, starts, ap march_day h);
  }

  pub civil_from-IsDate :
      IsDate (civil_from y doy mp) (365 * y + y / 4 + y / 400 - y / 100 + 60 + doy)
  civil_from-IsDate = elim (month_cases (omega arith)) [
    | inl h ↦
        let early : ltb mp 10 ≡ true = ground arith in
        let same : y + 0 ≡ y = omega arith in rw (early, same) (spring-IsDate h)
    | inr (inl h) ↦
        let late : ltb mp 10 ≡ false = ground arith in
        let next : y + 1 ≡ suc y = omega arith in
        let month : mp - 9 ≡ 1 = omega arith in rw (late, next, month) (january h)
    | inr (inr h) ↦
        let late : ltb mp 10 ≡ false = ground arith in
        let next : y + 1 ≡ suc y = omega arith in
        let month : mp - 9 ≡ 2 = omega arith in rw (late, next, month) (february h)
  ]
    where
      month_cases : mp < 12 → (mp < 10) ⊎ ((mp ≡ 10) ⊎ (mp ≡ 11))
      month_cases h = ground arith
