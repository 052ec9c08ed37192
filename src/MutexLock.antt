-- ===== src/MutexLock.antt =====
-- src/MutexLock.h and src/Condition.h: a lock that notes its holder, and a wait on a condition. `owner` is the thread that
-- has the mutex of pthreads, and `holder` is `holder_`; a thread is its number, which is not 0.
pub mod Holder
mod Tests
use event_loop.Prelude.{ℕ, Bool, Option, none, some, ◌==◌, Result, check}

pub record MutexLock : Type 0 where
  pub owner : Option ℕ
  pub holder : ℕ

abbrev pub new_mutex : MutexLock
new_mutex = record { owner = none; holder = 0 }

-- The thread has waited until the mutex was free.
unfoldable pub lock : ℕ → MutexLock → MutexLock
lock t m = record { owner = some t; holder = t }

unfoldable pub unlock : MutexLock → MutexLock
unlock m = record { owner = none; holder = 0 }

unfoldable pub is_locked_by_this_thread : ℕ → MutexLock → Bool
is_locked_by_this_thread t m = m.holder == t

abbrev pub assert_locked : ℕ → MutexLock → Result (Unit {0})
assert_locked t m = check (is_locked_by_this_thread t m)

-- `wait` of a Condition: pthread_cond_wait(3) gives the mutex up, and takes it again when it returns.
unfoldable pub fall_asleep : MutexLock → MutexLock
fall_asleep m = record m { owner = none }

unfoldable pub wake_up : ℕ → MutexLock → MutexLock
wake_up t m = record m { owner = some t }
