-- ===== src/TimeZone/Utc/Tests.antt =====
-- A time and its fields, for examples.
use event_loop.Prelude.{◌≡◌, true, refl, ℤ, negsuc}
use event_loop.Date.{julian_day_of_1970_01_01, get_year_month_day}
use event_loop.TimeZone.Utc.{to_utc_time, from_utc_time}

-- 1969-12-31 23:46:39.
abbrev before : ℤ
before = negsuc 800

-- The code gives a time 460 seconds early.
run : from_utc_time (to_utc_time before true) ≡ negsuc 1260
unfolding from_utc_time to_utc_time julian_day_of_1970_01_01 get_year_month_day
run = refl
