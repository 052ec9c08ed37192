-- ===== src/TimeZone/Tests.antt =====
-- A zone with two transitions, for examples.
use event_loop.Prelude.{
  ℕ, zero, suc, ◌<◌, ◌≡◌, true, false, some, [], ◌∷◌, length, get_elem?, ok, pos, arith,
}
use event_loop.TimeZone.{Transition, Localtime, Data, find_localtime}
use event_loop.TimeZone.Search.{IsLocaltimeOf, IsIncreasing, find_localtime_lem}

abbrev at_time : ℕ → ℕ → ℕ → Transition
at_time t l i = record { gmttime = pos t; localtime = pos l; localtime_idx = i }

abbrev zone : Data
zone = record {
  transitions = at_time 1000 8200 1 ∷ at_time 2000 5600 0 ∷ [];
  localtimes =
      record { gmt_offset = pos 3600; is_dst = false; arrb_idx = 0 }
      ∷ record { gmt_offset = pos 7200; is_dst = true; arrb_idx = 4 }
      ∷ [];
  abbreviation = [];
}

zone-IsIncreasing : IsIncreasing true zone.transitions
zone-IsIncreasing zero t u e g = ground arith
zone-IsIncreasing (suc i) t u e g = absurd (ground arith)

zone-named :
    (i : ℕ) (t : Transition)
    → get_elem? zone.transitions i ≡ some t
    → t.localtime_idx < length zone.localtimes
zone-named zero t e = ground arith
zone-named (suc zero) t e = ground arith
zone-named (suc (suc i)) t e = absurd (ground arith)

find_localtime_lem_example :
    (l : Localtime) × ((find_localtime zone (at_time 1500 0 0) true ≡ ok l)
      × IsLocaltimeOf zone (at_time 1500 0 0) true l)
find_localtime_lem_example =
    find_localtime_lem zone (at_time 1500 0 0) true (omega arith) zone-named zone-IsIncreasing
