-- ===== src/Date/Tests.antt =====
-- Dates and day numbers, for examples.
use event_loop.Prelude.{◌≡◌, ◌<◌, ◌*◌, ◌+◌, ◌^◌, arith}
use event_loop.Date.{get_julian_day_number, get_year_month_day}
use event_loop.Date.RoundTrip.{year_month_day-julian_day_number}

year_month_day-julian_day_number_example :
    (get_year_month_day (get_julian_day_number 2000 2 29)
      ≡ record { year = 2000; month = 2; day = 29 })
    × (4 * (get_julian_day_number 2000 2 29 + 32044) + 3 < 2 ^ 31)
year_month_day-julian_day_number_example =
    year_month_day-julian_day_number 2000 2 29 (omega arith) (omega arith) (omega arith)
      (omega arith) (omega arith) (ground arith)
