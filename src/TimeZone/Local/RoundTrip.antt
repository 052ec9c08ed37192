-- ===== src/TimeZone/Local/RoundTrip.antt =====
-- TimeZone.cpp: from a time to its local time and back.
use event_loop.Prelude.{
  ◌≤◌, ◌≡◌, refl, ap, ◌∙◌, true, false, length, le→leb, drop, inl, inr, Bool-cases, ok, ◌>>=◌, ℤ,
  pos, negsuc, ◌+ℤ◌, ◌-ℤ◌, arith, ==_self,
}
use event_loop.TimeZone.{Localtime, Data, find_localtime}
use event_loop.TimeZone.Utc.{Tm}
use event_loop.TimeZone.Local.{LocalTm, sentry_at, to_local_time, from_local_time, is_same_hour}

add-sub : (a b : ℤ) → a +ℤ b -ℤ b ≡ a
add-sub (pos m) (pos n) = ground arith
add-sub (pos m) (negsuc n) = ground arith
add-sub (negsuc m) (pos n) = ground arith
add-sub (negsuc m) (negsuc n) = ground arith

-- An hour more in the offset is an hour more in the time.
add_hour : (a b : ℤ) → a +ℤ (b +ℤ pos 3600) ≡ a +ℤ pos 3600 +ℤ b
add_hour (pos m) (pos n) = ground arith
add_hour (pos m) (negsuc n) = ground arith
add_hour (negsuc m) (pos n) = ground arith
add_hour (negsuc m) (negsuc n) = ground arith

sub_hour : (a b : ℤ) → a +ℤ pos 3600 +ℤ b -ℤ pos 3600 -ℤ b ≡ a
sub_hour (pos m) (pos n) = ground arith
sub_hour (pos m) (negsuc n) = ground arith
sub_hour (negsuc m) (pos n) = ground arith
sub_hour (negsuc m) (negsuc n) = ground arith

-- What findLocaltime finds for the local time of `t`, at which `l` is in force: the same offset; or, in the hour
-- that daylight saving time repeats, that of the time after it.
pub data IsReadBack (d : Data) (t : ℤ) (l l' : Localtime) : Type 0 where
  unique : l'.gmt_offset ≡ l.gmt_offset → IsReadBack d t l l'
  repeated :
      (after : Localtime)
      → l.is_dst ≡ true
      → l.gmt_offset ≡ l'.gmt_offset +ℤ pos 3600
      → find_localtime d (sentry_at (t +ℤ pos 3600) (pos 0)) true ≡ ok after
      → after.is_dst ≡ false
      → after.gmt_offset ≡ l'.gmt_offset
      → after.arrb_idx ≤ length d.abbreviation
      → IsReadBack d t l l'

module _ (gmtime : ℤ → Tm) (timegm : Tm → ℤ) (inverse : (t : ℤ) → timegm (gmtime t) ≡ t) where
  abbrev local_of : Data → ℤ → Localtime → LocalTm
  local_of d t l = record {
    tm = gmtime (t +ℤ l.gmt_offset);
    is_dst = l.is_dst;
    gmt_offset = l.gmt_offset;
    zone = drop l.arrb_idx d.abbreviation;
  }

  to_local_time-eq :
      (d : Data) (t : ℤ) (l : Localtime)
      → find_localtime d (sentry_at t (pos 0)) true ≡ ok l
      → l.arrb_idx ≤ length d.abbreviation
      → to_local_time gmtime timegm d t ≡ ok (local_of d t l)
  unfolding to_local_time
  to_local_time-eq d t l e h = rw (to_local_time, e, le→leb _ _ h) refl

  -- If timegm undoes gmtime_r: for a time at which a local time is in force, and for which findLocaltime by the
  -- local time finds the same offset, or the time is in the hour that daylight saving time repeats,
  -- fromLocalTime of its local time is the time, with daylight saving time or without.
  pub from_local_time-to_local_time :
      (d : Data) (t : ℤ) (l l' : Localtime)
      → find_localtime d (sentry_at t (pos 0)) true ≡ ok l
      → l.arrb_idx ≤ length d.abbreviation
      → find_localtime d (sentry_at (pos 0) (t +ℤ l.gmt_offset)) false ≡ ok l'
      → IsReadBack d t l l'
      → (to_local_time gmtime timegm d t >>= λ tm. from_local_time gmtime timegm d tm) ≡ ok t
  unfolding from_local_time
  from_local_time-to_local_time d t l l' e h g (unique same) =
      ap (λ r. r >>= λ tm. from_local_time gmtime timegm d tm) (to_local_time-eq d t l e h)
      ∙ elim (Bool-cases l.is_dst) [
        | inl y ↦
            rw
              (
                from_local_time,
                inverse (t +ℤ l.gmt_offset),
                g,
                y,
                same,
                add-sub t l.gmt_offset,
                to_local_time-eq d t l e h,
                y,
                add-sub t l.gmt_offset,
              )
              refl
        | inr n ↦
            rw (from_local_time, inverse (t +ℤ l.gmt_offset), g, n, same, add-sub t l.gmt_offset)
              refl
      ]
  from_local_time-to_local_time d t l l' e h g (repeated after y off f n same k) =
      ap (λ r. r >>= λ tm. from_local_time gmtime timegm d tm) (to_local_time-eq d t l e h)
      ∙ rw
          (
            from_local_time,
            inverse (t +ℤ l.gmt_offset),
            g,
            y,
            later,
            to_local_time-eq d _ after f k,
            is_same,
            earlier,
          )
          refl
    where
      later : t +ℤ l.gmt_offset -ℤ l'.gmt_offset ≡ t +ℤ pos 3600
      later = rw (off, add_hour t l'.gmt_offset, add-sub (t +ℤ pos 3600) l'.gmt_offset) refl

      same_time : t +ℤ pos 3600 +ℤ after.gmt_offset ≡ t +ℤ l.gmt_offset
      same_time = rw (same, off, add_hour t l'.gmt_offset) refl

      is_same :
          is_same_hour gmtime timegm (local_of d (t +ℤ pos 3600) after) (local_of d t l) ≡ true
      is_same =
          rw
            (
              n,
              same_time,
              ==_self (gmtime (t +ℤ l.gmt_offset)).hour,
              ==_self (gmtime (t +ℤ l.gmt_offset)).min,
            )
            refl

      earlier : t +ℤ l.gmt_offset -ℤ pos 3600 -ℤ l'.gmt_offset ≡ t
      earlier = rw (off, add_hour t l'.gmt_offset, sub_hour t l'.gmt_offset) refl
