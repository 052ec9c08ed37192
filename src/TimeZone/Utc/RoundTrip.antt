-- ===== src/TimeZone/Utc/RoundTrip.antt =====
-- TimeZone.cpp: from a time to its fields and back.
use event_loop.Prelude.{ℤ, pos, ◌+ℤ◌, ◌-ℤ◌, is_negative, if◌then◌else◌}
use event_loop.TimeZone.Utc.{rem, quot, seconds_per_day}

-- The split with no casts.
abbrev plain : ℤ → ℤ × ℤ
plain t =
    let seconds = rem t seconds_per_day in
    let days = quot t seconds_per_day in
    if is_negative seconds then (seconds +ℤ pos seconds_per_day, days -ℤ pos 1) else (seconds, days)
