-- ===== src/TimeZone/Local.antt =====
-- TimeZone.cpp: the local time of a zone. gmtime_r(3) and timegm(3) are parameters.
pub mod RoundTrip
mod Tests
use event_loop.Prelude.{
  ℕ, Bool, true, false, not, ◌&&◌, Option, none, some, List, [], ◌∷◌, length, drop, leb, ◌==◌,
  if◌then◌else◌, Result, ok, err, check, undefined_access, ◌>>=◌, ◌>>◌, ℤ, pos, ◌+ℤ◌, ◌-ℤ◌,
}
use event_loop.Http.Request.{Bytes}
use event_loop.TimeZone.{Transition, Localtime, Data, find_localtime}
use event_loop.TimeZone.Utc.{Tm}

-- `struct tm` with the fields of the zone.
pub record LocalTm : Type 0 where
  pub tm : Tm
  pub is_dst : Bool
  pub gmt_offset : ℤ
  pub zone : Bytes

-- A transition at a time in UTC, or at a local time.
abbrev pub sentry_at : ℤ → ℤ → Transition
sentry_at gmttime localtime = record { gmttime = gmttime; localtime = localtime; localtime_idx = 0 }

-- The constructor from an offset.
unfoldable pub fixed_zone : ℤ → Bytes → Data
fixed_zone east_of_utc name = record {
  transitions = [];
  localtimes = record { gmt_offset = east_of_utc; is_dst = false; arrb_idx = 0 } ∷ [];
  abbreviation = name;
}

-- `&data.abbreviation[i]`.
abbrev pub text_from : Bytes → ℕ → Result Bytes
text_from text i = if leb i (length text) then ok (drop i text) else err undefined_access

module _ (gmtime : ℤ → Tm) (timegm : Tm → ℤ) where
  unfoldable pub to_local_time : Data → ℤ → Result LocalTm
  to_local_time d seconds = find_localtime d (sentry_at seconds (pos 0)) true >>= λ l.
      text_from d.abbreviation l.arrb_idx >>= λ zone. ok (record {
        tm = gmtime (seconds +ℤ l.gmt_offset);
        is_dst = l.is_dst;
        gmt_offset = l.gmt_offset;
        zone = zone;
      })

  -- Whether the time that was tried shows the same hour and minute without being daylight saving time.
  abbrev pub is_same_hour : LocalTm → LocalTm → Bool
  is_same_hour try_tm local_tm =
      not try_tm.is_dst && try_tm.tm.hour == local_tm.tm.hour && try_tm.tm.min == local_tm.tm.min

  unfoldable pub from_local_time : Data → LocalTm → Result ℤ
  unfolding to_local_time
  from_local_time d local_tm =
      let seconds = timegm local_tm.tm in
      find_localtime d (sentry_at (pos 0) seconds) false >>= λ l.
      (if local_tm.is_dst
        then (to_local_time d (seconds -ℤ l.gmt_offset) >>= λ try_tm. ok (
            (if is_same_hour try_tm local_tm then seconds -ℤ pos 3600 else seconds)
            -ℤ l.gmt_offset))
        else ok (seconds -ℤ l.gmt_offset))
