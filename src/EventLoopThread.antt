-- ===== src/EventLoopThread.antt =====
-- src/EventLoopThread.cpp: the thread that calls `startLoop` and then the destructor, the owner, and the thread
-- it makes. A part that holds the mutex is one step, with the notification at its end; a wait is two: falling
-- asleep, and looking again. The new thread's EventLoop has the address `address`; of it only `quit_` matters.
pub mod Steps
pub mod Handshake
pub mod Hangs
mod Tests
use event_loop.Prelude.{
  ℕ, Bool, true, false, not, Option, none, some, List, [], ◌∷◌, ◌++◌, if◌then◌else◌, Result, ok,
  err, check, undefined_access, ◌>>=◌, ◌>>◌,
}
use event_loop.Http.Request.{Bytes}
use event_loop.CountDownLatch.{must_wait}
use event_loop.Thread
use event_loop.Thread.{Thread, new_thread, check_tid, run_in_thread, join}

-- Where the owner is: before `startLoop`, in `wait` of the latch, in the wait for the loop, after `startLoop` with
-- what it returned, and in the destructor: before `quit`, in `join`, and at its end.
pub data Owner : Type 0 where
  idle at_latch asleep_at_latch at_loop asleep_at_loop quitting joining done : Owner
  returned : ℕ → Owner

-- Where the new thread is: not made; before it counts down; before the callback; before it sets `loop_`; before `loop`,
-- in it and after it; and at its end.
pub data Child : Type 0 where
  unborn born counted called published looping leaving finished : Child

pub record EventLoopThread : Type 0 where
  pub loop : Option ℕ
  pub exiting : Bool
  pub thread : Thread
  pub has_callback : Bool
  pub owner : Owner
  pub child : Child
  pub quit : Bool
  pub calls : List ℕ

unfoldable pub new_event_loop_thread : Bool → ℕ → Bytes → EventLoopThread
unfolding new_thread
new_event_loop_thread has_callback num name = record {
  loop = none;
  exiting = false;
  thread = new_thread num name;
  has_callback = has_callback;
  owner = idle;
  child = unborn;
  quit = false;
  calls = [];
}

-- The start of `startLoop`.
unfoldable pub start_thread : Bool → EventLoopThread → Result EventLoopThread
unfolding Thread.start
start_thread created s =
    check (not s.thread.started)
    >> (Thread.start created s.thread >>= λ t. ok (record s {
      thread = t;
      owner = if created then at_latch else at_loop;
      child = if created then born else s.child;
    }))

-- The test in `wait` of the latch.
unfoldable pub test_latch : EventLoopThread → Result EventLoopThread
unfolding must_wait
test_latch s =
    if must_wait s.thread.latch
    then ok (record s { owner = asleep_at_latch })
    else (check_tid s.thread >>= λ t. ok (record s { owner = at_loop }))

-- The test of `startLoop`.
unfoldable pub test_loop : EventLoopThread → EventLoopThread
test_loop s = record s { owner = elim s.loop [ none ↦ asleep_at_loop | some l ↦ returned l ] }

-- Waking, if the owner waits at the latch or for the loop.
abbrev pub wake_at_latch : Owner → Owner
wake_at_latch asleep_at_latch = at_latch
wake_at_latch o = o

abbrev pub wake_at_loop : Owner → Owner
wake_at_loop asleep_at_loop = at_loop
wake_at_loop o = o

-- The new thread.
unfoldable pub announce : ℕ → EventLoopThread → EventLoopThread
unfolding run_in_thread
announce tid s =
    let told = run_in_thread tid s.thread in
    record s {
      thread = told.0;
      owner = if told.1 then wake_at_latch s.owner else s.owner;
      child = counted;
    }

unfoldable pub call_back : ℕ → EventLoopThread → EventLoopThread
call_back address s = record s {
  calls = if s.has_callback then s.calls ++ address ∷ [] else s.calls;
  child = called;
}

unfoldable pub publish : ℕ → EventLoopThread → EventLoopThread
publish address s = record s {
  loop = some address;
  owner = wake_at_loop s.owner;
  child = published;
}

-- `loop` takes back what `quit` said before.
unfoldable pub enter_loop : EventLoopThread → EventLoopThread
enter_loop s = record s { quit = false; child = looping }

unfoldable pub clear_loop : EventLoopThread → EventLoopThread
clear_loop s = record s { loop = none; child = finished }

-- The destructor: its test, `quit`, and `join`.
unfoldable pub destroy : EventLoopThread → EventLoopThread
destroy s = record s { exiting = true; owner = elim s.loop [ none ↦ done | some l ↦ quitting ] }

unfoldable pub quit_and_join : EventLoopThread → Result EventLoopThread
quit_and_join s = elim s.loop [
  | none ↦ err undefined_access
  | some l ↦ join s.thread >>= λ t. ok (record s { thread = t; quit = true; owner = joining })
]
