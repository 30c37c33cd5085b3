-- ===== src/Time.antt =====
-- src/platform/cg_time.c. The function of the vDSO and the system call are parameters: what they
-- give in a call.
pub mod Calendar
pub mod Civil
pub mod Date
use compuguessr.Base.{
  ℕ, ◌+◌, ◌-◌, ◌*◌, ◌/◌, Bool, true, false, Option, none, some, List, ltb, leb, if◌then◌else◌,
}
use compuguessr.Base.Text.{write}
use compuguessr.Base.Words.{u32, u64, sub_u32}
use compuguessr.Util.Digits.{write_digits2, write_digits4}
use compuguessr.Util.Division.{div60_u32, div3600_u32, div86400_u32}

-- `gettime` is the seconds that the function of the vDSO gives, where there is one.
unfoldable pub time_get : Option ℕ → ℕ → ℕ
time_get none sys_time = sys_time
time_get (some tv_sec) sys_time = tv_sec

pub record Datetime : Type 0 where
  pub year : ℕ
  pub month : ℕ
  pub day : ℕ
  pub hours : ℕ
  pub minutes : ℕ
  pub secs : ℕ

-- The year, the month and the day, as the function computes them from the days since the epoch.
unfoldable pub civil : ℕ → ℕ × ℕ × ℕ
civil days_since_epoch =
    let z = u32 (days_since_epoch + 719468) in
    let era = z / 146097 in
    let doe = sub_u32 z (u32 (era * 146097)) in
    let yoe = sub_u32 (u32 (sub_u32 doe (doe / 1460) + doe / 36524)) (doe / 146096) / 365 in
    let y = u32 (yoe + u32 (era * 400)) in
    let doy = sub_u32 doe (sub_u32 (u32 (u32 (365 * yoe) + yoe / 4)) (yoe / 100)) in
    let mp = u32 (u32 (5 * doy) + 2) / 153 in
    let d = u32 (sub_u32 doy (u32 (u32 (153 * mp) + 2) / 5) + 1) in
    let m = if ltb mp 10 then u32 (mp + 3) else sub_u32 mp 9 in
    (u32 (y + (if leb m 2 then 1 else 0)), m, d)

unfoldable pub datetime : ℕ → Datetime
unfolding civil
datetime time =
    let seconds = u32 time in
    let days_since_epoch = div86400_u32 seconds in
    let secs_of_day = sub_u32 seconds (u32 (days_since_epoch * 86400)) in
    let hours = div3600_u32 secs_of_day in
    let hour_r = sub_u32 secs_of_day (u32 (hours * 3600)) in
    let minutes = div60_u32 hour_r in
    let date = civil days_since_epoch in
    record {
      year = date.0;
      month = date.1;
      day = date.2;
      hours = hours;
      minutes = minutes;
      secs = sub_u32 hour_r (u32 (minutes * 60));
    }

-- The buffer at `out`.
unfoldable pub datetime_str : List ℕ → ℕ → List ℕ
unfolding datetime
datetime_str out time =
    let t = datetime time in
    let out₁ =
      write (write (write out 0 (write_digits4 t.year)) 5 (write_digits2 t.month)) 8
        (write_digits2 t.day) in
    write (write (write out₁ 11 (write_digits2 t.hours)) 14 (write_digits2 t.minutes)) 17
      (write_digits2 t.secs)
