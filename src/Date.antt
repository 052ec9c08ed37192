-- ===== src/Date.antt =====
-- src/Date.h and src/Date.cpp: Julian day numbers. They are natural numbers; so is a year, from 0 on, where
-- no difference is negative. An `int` of the source overflows from some year after 1400000 on, which is undefined there and
-- left out here: the theorems are about the years before, and show that the largest number computed is an `int`:
-- `4 * a + 3`, which the sums of getJulianDayNumber and the products of getYearMonthDay do not exceed.
pub mod RoundTrip
mod Tests
use event_loop.Prelude.{ℕ, ◌+◌, ◌-◌, ◌*◌, ◌/◌, ◌%◌}

pub record YearMonthDay : Type 0 where
  pub year : ℕ
  pub month : ℕ
  pub day : ℕ

unfoldable pub get_julian_day_number : ℕ → ℕ → ℕ → ℕ
get_julian_day_number year month day =
    let a = (14 - month) / 12 in
    let y = year + 4800 - a in
    let m = month + 12 * a - 3 in
    day + (153 * m + 2) / 5 + y * 365 + y / 4 - y / 100 + y / 400 - 32045

unfoldable pub get_year_month_day : ℕ → YearMonthDay
get_year_month_day julian_day_number =
    let a = julian_day_number + 32044 in
    let b = (4 * a + 3) / 146097 in
    let c = a - b * 146097 / 4 in
    let d = (4 * c + 3) / 1461 in
    let e = c - 1461 * d / 4 in
    let m = (5 * e + 2) / 153 in
    record {
      day = e - (153 * m + 2) / 5 + 1;
      month = m + 3 - 12 * (m / 10);
      year = b * 100 + d - 4800 + m / 10;
    }

-- `kJulianDayOf1970_01_01`.
unfoldable pub julian_day_of_1970_01_01 : ℕ
unfolding get_julian_day_number
julian_day_of_1970_01_01 = get_julian_day_number 1970 1 1

unfoldable pub week_day : ℕ → ℕ
week_day julian_day_number = (julian_day_number + 1) % 7
