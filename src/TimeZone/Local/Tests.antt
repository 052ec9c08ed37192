-- ===== src/TimeZone/Local/Tests.antt =====
-- Local times of a zone with an hour that is repeated.
use event_loop.Prelude.{◌≡◌, refl, true, false, [], ◌∷◌, ok, ◌>>=◌, ℤ, pos, arith}
use event_loop.TimeZone.{Data, find_localtime}
use event_loop.TimeZone.Utc.{Tm}
use event_loop.TimeZone.Local.{to_local_time, from_local_time}
use event_loop.TimeZone.Local.RoundTrip.{from_local_time-to_local_time, IsReadBack.repeated}

-- A clock that keeps the time in the field of the year.
abbrev gmtime : ℤ → Tm
gmtime t = record { sec = 0; min = 0; hour = 0; mday = 0; mon = 0; year = t; wday = 0; yday = 0 }

abbrev timegm : Tm → ℤ
timegm tm = tm.year

-- Daylight saving time until 100000.
abbrev zone : Data
zone = record {
  transitions =
      record { gmttime = pos 0; localtime = pos 3600; localtime_idx = 0 }
      ∷ record { gmttime = pos 100000; localtime = pos 100000; localtime_idx = 1 }
      ∷ [];
  localtimes =
      record { gmt_offset = pos 3600; is_dst = true; arrb_idx = 0 }
      ∷ record { gmt_offset = pos 0; is_dst = false; arrb_idx = 2 }
      ∷ [];
  abbreviation = 83 ∷ 0 ∷ 87 ∷ 0 ∷ [];
}

-- A time in the repeated hour, before the clock is put back.
from_local_time-to_local_time_example :
    (to_local_time gmtime timegm zone (pos 98000) >>= λ tm. from_local_time gmtime timegm zone tm)
    ≡ ok (pos 98000)
unfolding find_localtime
from_local_time-to_local_time_example =
    from_local_time-to_local_time gmtime timegm (λ t. refl) zone (pos 98000)
      (record { gmt_offset = pos 3600; is_dst = true; arrb_idx = 0 })
      (record { gmt_offset = pos 0; is_dst = false; arrb_idx = 2 }) refl (omega arith) refl
      (repeated (record { gmt_offset = pos 0; is_dst = false; arrb_idx = 2 }) refl refl refl refl
        refl (omega arith))
