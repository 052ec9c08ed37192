-- ===== src/TimeZone/ZoneFile/Tests.antt =====
-- A zone file, for examples.
use event_loop.Prelude.{◌≡◌, refl, true, false, some, [], ◌∷◌, ok, pos, negsuc, arith}
use event_loop.TimeZone.ZoneFile.{new_time_zone}
use event_loop.TimeZone.ZoneFile.RoundTrip.{
  Zone, print_zone, data_of, IsPrintable, new_time_zone-print_zone,
}

-- Two changes, the first before 1970.
abbrev zone : Zone
zone = record {
  version = 0;
  reserved = 0 ∷ 0 ∷ 0 ∷ 0 ∷ 0 ∷ 0 ∷ 0 ∷ 0 ∷ 0 ∷ 0 ∷ 0 ∷ 0 ∷ 0 ∷ 0 ∷ 0 ∷ [];
  isgmtcnt = pos 0;
  isstdcnt = pos 0;
  leapcnt = pos 0;
  changes = (negsuc 999, 1) ∷ (pos 2000, 0) ∷ [];
  types =
      record { gmt_offset = negsuc 17999; is_dst = false; arrb_idx = 0 }
      ∷ record { gmt_offset = negsuc 14399; is_dst = true; arrb_idx = 4 }
      ∷ [];
  text = 69 ∷ 83 ∷ 84 ∷ 0 ∷ 69 ∷ 68 ∷ 84 ∷ 0 ∷ [];
}

zone-IsPrintable : IsPrintable zone
zone-IsPrintable = record {
  reserved_is = refl;
  isgmtcnt_is = omega arith;
  isstdcnt_is = omega arith;
  leapcnt_is = omega arith;
  times_are = omega arith;
  offsets_are = omega arith;
  named = omega arith;
  few_changes = omega arith;
  few_types = omega arith;
  short = omega arith;
}

new_time_zone-print_zone_example :
    new_time_zone (some (print_zone zone (10 ∷ []))) ≡ ok (some (data_of zone))
new_time_zone-print_zone_example = new_time_zone-print_zone zone zone-IsPrintable (10 ∷ [])
