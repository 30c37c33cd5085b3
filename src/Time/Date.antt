-- ===== src/Time/Date.antt =====
-- The date that `cg_datetime_str_get` prints.
use compuguessr.Base.{ℕ, ◌+◌, ◌-◌, ◌*◌, ◌/◌, ◌%◌, ◌^◌, ◌<◌, ◌≡◌, refl, ◌∙◌, arith}
use compuguessr.Base.Words.{u32, sub_u32}
use compuguessr.Time.{Datetime, civil, datetime}
use compuguessr.Time.Calendar.{IsDate, civil_from-IsDate}
use compuguessr.Time.Civil.{
  yoe_of, doy_of, year_a, year_b, year_small, civil_plain, leap_last, total_days,
}
use compuguessr.Util.Division.{div60_u32_lem, div3600_u32_lem, div86400_u32_lem}

-- For every day from the start of 1970 on: the year, the month and the day that the code computes
-- are a date of the Gregorian calendar, and the days from the start of the year 0 to that date are
-- those to the start of 1970 and the days since.
pub civil-IsDate : (days : ℕ) → days < 2 ^ 31 → IsDate (civil days) (719528 + days)
civil-IsDate days h =
    let z : ℕ = days + 719468 in
    let doe : ℕ = z % 146097 in
    let yoe : ℕ = yoe_of doe in
    let y : ℕ = yoe + z / 146097 * 400 in
    let inside : doe < 146097 = omega arith in
    let small = year_small doe yoe inside refl in
    let low = year_a doe yoe inside refl in
    let few : doy_of doe < 366 = omega (arith, year_b doe yoe inside refl) in
    let sum : 365 * y + y / 4 + y / 400 - y / 100 + 60 + doy_of doe ≡ 719528 + days =
      total_days z yoe (doy_of doe) small low refl ∙ omega arith in
    let date =
      civil_from-IsDate y (doy_of doe) few (λ last. leap_last doe (z / 146097) inside last) in
    rw (civil_plain days h) (rw sum at date)

-- The fields of a time are a date and a time of day, and tell the seconds since the epoch.
pub record IsTime (t : Datetime) (seconds : ℕ) : Type 0 where
  pub date : IsDate (t.year, t.month, t.day) (719528 + seconds / 86400)
  pub hours : t.hours < 24
  pub minutes : t.minutes < 60
  pub secs : t.secs < 60
  pub clock : t.hours * 3600 + t.minutes * 60 + t.secs ≡ seconds % 86400

-- Until the seconds since the epoch reach 2 ^ 32, in the year 2106, the fields that
-- `cg_datetime_str_get` prints are the Gregorian date of that day and its time of day.
pub datetime-IsTime : (time : ℕ) → time < 2 ^ 32 → IsTime (datetime time) time
unfolding datetime
datetime-IsTime time h =
    let days = div86400_u32_lem time h in
    let rest : sub_u32 time (u32 (time / 86400 * 86400)) ≡ time % 86400 = omega arith in
    let hours = div3600_u32_lem (time % 86400) (omega arith) in
    let hour_r : sub_u32 (time % 86400) (u32 (time % 86400 / 3600 * 3600)) ≡ time % 86400 % 3600 =
      omega arith in
    let minutes = div60_u32_lem (time % 86400 % 3600) (omega arith) in
    let same : u32 time ≡ time = omega arith in
    rw (same, days, rest, hours, hour_r, minutes)
      (record {
        date = civil-IsDate (time / 86400) (omega arith);
        hours = omega arith;
        minutes = omega arith;
        secs = omega arith;
        clock = omega arith;
      })
