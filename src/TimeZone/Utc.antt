-- ===== src/TimeZone/Utc.antt =====
-- TimeZone.cpp: the time of day and the date in UTC, with the days cast to an `int`. For dates, see Date.
pub mod RoundTrip
mod Tests
use event_loop.Prelude.{
  ℕ, suc, ◌+◌, ◌-◌, ◌*◌, ◌/◌, ◌%◌, ◌^◌, ltb, Bool, if◌then◌else◌, ℤ, pos, negsuc, pos_part,
  is_negative, sub_ℕ, ◌+ℤ◌, ◌-ℤ◌, scale,
}
use event_loop.Date.{get_julian_day_number, get_year_month_day, julian_day_of_1970_01_01, week_day}

abbrev pub seconds_per_day : ℕ
seconds_per_day = 24 * 60 * 60

-- The fields of `struct tm`; `zone` is GMT throughout.
pub record Tm : Type 0 where
  pub sec : ℕ
  pub min : ℕ
  pub hour : ℕ
  pub mday : ℕ
  pub mon : ℕ
  pub year : ℤ
  pub wday : ℕ
  pub yday : ℕ

-- Seconds, minutes and hours.
unfoldable pub fill_hms : ℕ → ℕ × (ℕ × ℕ)
fill_hms seconds = let minutes = seconds / 60 in (seconds % 60, (minutes % 60, minutes / 60))

-- `%` and `/` of a `time_t` and a number of seconds, which round to zero.
abbrev pub rem : ℤ → ℕ → ℤ
rem (pos n) k = pos (n % k)
rem (negsuc n) k = sub_ℕ 0 (suc n % k)

abbrev pub quot : ℤ → ℕ → ℤ
quot (pos n) k = pos (n / k)
quot (negsuc n) k = sub_ℕ 0 (suc n / k)

-- `static_cast<int>`.
unfoldable pub to_int : ℤ → ℤ
to_int (pos n) = let r = n % 2 ^ 32 in if ltb r (2 ^ 31) then pos r else sub_ℕ r (2 ^ 32)
to_int (negsuc n) = let r = n % 2 ^ 32 in if ltb r (2 ^ 31) then negsuc r else pos (2 ^ 32 - 1 - r)

-- The seconds of the day, and the days.
unfoldable pub split : ℤ → ℤ × ℤ
unfolding to_int
split t =
    let seconds = to_int (rem t seconds_per_day) in
    let days = to_int (quot t seconds_per_day) in
    if is_negative seconds then (seconds +ℤ pos seconds_per_day, days -ℤ pos 1) else (seconds, days)

-- The Julian day number of a number of days since 1970.
unfoldable pub julian_day_of : ℤ → ℕ
julian_day_of days = pos_part (days +ℤ pos julian_day_of_1970_01_01)

unfoldable pub to_utc_time : ℤ → Bool → Tm
unfolding fill_hms split julian_day_of
to_utc_time seconds_since_epoch yday =
    let seconds = pos_part (split seconds_since_epoch).0 in
    let date = julian_day_of (split seconds_since_epoch).1 in
    let ymd = get_year_month_day date in
    record {
      sec = (fill_hms seconds).0;
      min = (fill_hms seconds).1.0;
      hour = (fill_hms seconds).1.1;
      mday = ymd.day;
      mon = ymd.month - 1;
      year = sub_ℕ ymd.year 1900;
      wday = week_day date;
      yday = if yday then date - get_julian_day_number ymd.year 1 1 else 0;
    }

unfoldable pub from_utc_fields : ℕ → ℕ → ℕ → ℕ → ℕ → ℕ → ℤ
from_utc_fields year month day hour minute seconds =
    let date = get_julian_day_number year month day in
    let seconds_in_day = hour * 3600 + minute * 50 + seconds in
    let days = sub_ℕ date julian_day_of_1970_01_01 in
    scale days seconds_per_day +ℤ pos seconds_in_day

unfoldable pub from_utc_time : Tm → ℤ
unfolding from_utc_fields
from_utc_time utc =
    from_utc_fields (pos_part (utc.year +ℤ pos 1900)) (utc.mon + 1) utc.mday utc.hour utc.min
      utc.sec
