-- ===== src/Time/Civil.antt =====
-- What `cg_datetime_str_get` computes, without the wrap-around of its words.
use compuguessr.Base.{
  ℕ, suc, ◌+◌, ◌-◌, ◌*◌, ◌/◌, ◌%◌, ◌^◌, ◌≤◌, ◌<◌, ◌≡◌, refl, arith, ltb, leb, if◌then◌else◌,
}
use compuguessr.Base.Words.{u32, sub_u32}
use compuguessr.Time.{civil}
use compuguessr.Time.Calendar.{is_leap, leap_day, march_day, civil_from}

pub year_a :
    (doe yoe : ℕ)
    → doe < 146097
    → yoe ≡ (doe - doe / 1460 + doe / 36524 - doe / 146096) / 365
    → 365 * yoe + yoe / 4 - yoe / 100 ≤ doe
year_a doe yoe h e = omega arith

pub year_b :
    (doe yoe : ℕ)
    → doe < 146097
    → yoe ≡ (doe - doe / 1460 + doe / 36524 - doe / 146096) / 365
    → (doe < 365 * yoe + yoe / 4 - yoe / 100 + 366)
year_b doe yoe h e = omega arith

pub year_small :
    (doe yoe : ℕ)
    → doe < 146097
    → yoe ≡ (doe - doe / 1460 + doe / 36524 - doe / 146096) / 365
    → yoe < 400
year_small doe yoe h e = omega arith

leap_end :
    (doe yoe : ℕ)
    → doe < 146097
    → yoe ≡ (doe - doe / 1460 + doe / 36524 - doe / 146096) / 365
    → doe ≡ 365 * yoe + yoe / 4 - yoe / 100 + 365
    → (yoe + 1) % 4 ≡ 0
leap_end doe yoe h e last = omega arith

century_end :
    (doe yoe : ℕ)
    → doe < 146097
    → yoe ≡ (doe - doe / 1460 + doe / 36524 - doe / 146096) / 365
    → doe ≡ 365 * yoe + yoe / 4 - yoe / 100 + 365
    → (yoe + 1) % 100 ≡ 0
    → yoe ≡ 399
century_end doe yoe h e last c = omega arith

-- The March-based year and day of `civil`.
abbrev pub yoe_of : ℕ → ℕ
yoe_of doe = (doe - doe / 1460 + doe / 36524 - doe / 146096) / 365

abbrev pub doy_of : ℕ → ℕ
doy_of doe = let yoe = yoe_of doe in doe - (365 * yoe + yoe / 4 - yoe / 100)

plain_doe : (z : ℕ) → z < 2 ^ 32 → sub_u32 z (u32 (z / 146097 * 146097)) ≡ z % 146097
plain_doe z h = omega arith

plain_yoe :
    (doe : ℕ)
    → doe < 146097
    → sub_u32 (u32 (sub_u32 doe (doe / 1460) + doe / 36524)) (doe / 146096) / 365 ≡ yoe_of doe
plain_yoe doe h = omega arith

plain_doy :
    (doe : ℕ)
    → doe < 146097
    → sub_u32 doe (sub_u32 (u32 (u32 (365 * yoe_of doe) + yoe_of doe / 4)) (yoe_of doe / 100))
      ≡ doy_of doe
plain_doy doe h =
    let low = year_a doe (yoe_of doe) h refl in
    let small = (year_small doe (yoe_of doe) h refl) in omega (arith, low, small)

plain_mp : (doy : ℕ) → doy < 366 → u32 (u32 (5 * doy) + 2) / 153 ≡ (5 * doy + 2) / 153
plain_mp doy h = omega arith

plain_day :
    (doy : ℕ)
    → doy < 366
    → u32 (sub_u32 doy (u32 (u32 (153 * ((5 * doy + 2) / 153)) + 2) / 5) + 1)
      ≡ doy - march_day ((5 * doy + 2) / 153) + 1
plain_day doy h = omega arith

plain_month :
    (mp : ℕ)
    → mp < 12
    → (if ltb mp 10 then u32 (mp + 3) else sub_u32 mp 9) ≡ (if ltb mp 10 then mp + 3 else mp - 9)
plain_month mp h = ground arith

plain_year :
    (y mp : ℕ)
    → y < 2 ^ 31
    → mp < 12
    → u32 (y + (if leb (if ltb mp 10 then mp + 3 else mp - 9) 2 then 1 else 0))
      ≡ y + (if ltb mp 10 then 0 else 1)
plain_year y mp h few = ground arith

pub civil_plain :
    (days : ℕ)
    → days < 2 ^ 31
    → civil days ≡ (
        let z = days + 719468 in
        let doe = z % 146097 in
        civil_from (yoe_of doe + z / 146097 * 400) (doy_of doe) ((5 * doy_of doe + 2) / 153))
unfolding civil
civil_plain days h =
    let z : ℕ = days + 719468 in
    let doe : ℕ = z % 146097 in
    let inside : doe < 146097 = omega arith in
    let small = year_small doe (yoe_of doe) inside refl in
    let few : doy_of doe < 366 = omega (arith, year_b doe (yoe_of doe) inside refl) in
    let sum : u32 (yoe_of doe + u32 (z / 146097 * 400)) ≡ yoe_of doe + z / 146097 * 400 =
      omega (arith, small) in
    let wide : u32 (days + 719468) ≡ days + 719468 = omega arith in
    rw
      (
        wide,
        plain_doe z (omega arith),
        plain_yoe doe inside,
        plain_doy doe inside,
        plain_mp (doy_of doe) few,
        plain_day (doy_of doe) few,
        plain_month ((5 * doy_of doe + 2) / 153) (omega (arith, few)),
        sum,
        plain_year (yoe_of doe + z / 146097 * 400) ((5 * doy_of doe + 2) / 153)
            (omega (arith, small)) (omega (arith, few)),
      )
      refl

leap_from :
    (yoe era : ℕ)
    → (yoe + 1) % 4 ≡ 0
    → ((yoe + 1) % 100 ≡ 0 → yoe ≡ 399)
    → leap_day (suc (yoe + era * 400)) ≡ 1
unfolding is_leap
leap_from yoe era four century = ground (arith, four, century)

pub leap_last :
    (doe era : ℕ) → doe < 146097 → doy_of doe ≡ 365 → leap_day (suc (yoe_of doe + era * 400)) ≡ 1
leap_last doe era h last =
    let low = year_a doe (yoe_of doe) h refl in
    let full : doe ≡ 365 * yoe_of doe + yoe_of doe / 4 - yoe_of doe / 100 + 365 =
      omega (arith, low, last) in
    leap_from (yoe_of doe) era (leap_end doe (yoe_of doe) h refl full)
      (century_end doe (yoe_of doe) h refl full)

pub total_days :
    (z yoe doy : ℕ)
    → yoe < 400
    → 365 * yoe + yoe / 4 - yoe / 100 ≤ z % 146097
    → doy ≡ z % 146097 - (365 * yoe + yoe / 4 - yoe / 100)
    → (let y = yoe + z / 146097 * 400 in 365 * y + y / 4 + y / 400 - y / 100 + 60 + doy) ≡ z + 60
total_days z yoe doy small low e = omega arith
