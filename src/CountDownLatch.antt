-- ===== src/CountDownLatch.antt =====
-- src/CountDownLatch.cpp. The mutex makes each of its parts one step: `count_down` says whether it notifies,
-- and `must_wait` is the test of the loop in `wait`.
use event_loop.Prelude.{zero, suc, Bool, true, false, ℤ, pos, negsuc, ◌-ℤ◌}

pub record CountDownLatch : Type 0 where
  pub count : ℤ

abbrev pub new_latch : ℤ → CountDownLatch
new_latch count = record { count = count }

abbrev pub is_positive : ℤ → Bool
is_positive (pos zero) = false
is_positive (pos (suc n)) = true
is_positive (negsuc n) = false

abbrev pub is_zero : ℤ → Bool
is_zero (pos zero) = true
is_zero (pos (suc n)) = false
is_zero (negsuc n) = false

unfoldable pub must_wait : CountDownLatch → Bool
must_wait l = is_positive l.count

unfoldable pub count_down : CountDownLatch → CountDownLatch × Bool
count_down l = let count = l.count -ℤ pos 1 in (record { count = count }, is_zero count)
