-- ===== src/MutexLock/Tests.antt =====
-- Two threads, for examples.
use event_loop.Prelude.{◌≡◌, refl, some, false, err, assertion_failed, arith}
use event_loop.MutexLock.{new_mutex, lock, unlock, is_locked_by_this_thread, assert_locked, wake_up}
use event_loop.MutexLock.Holder.{unlocks, here, next, wake_up-lock}

-- Thread 1 waits, and thread 2 takes the mutex and gives it back.
wake_up-lock_example :
    ((wake_up 1 new_mutex).owner ≡ some 1)
    × (is_locked_by_this_thread 1 (wake_up 1 new_mutex) ≡ false)
    × (assert_locked 1 (wake_up 1 new_mutex) ≡ err assertion_failed)
unfolding lock unlock
wake_up-lock_example =
    wake_up-lock 1 (ground arith) new_mutex 2 (ground arith)
      (next 2 (ground arith) here (unlocks refl refl)) refl
