-- ===== src/EventLoopThread/Hangs.antt =====
-- EventLoopThread.cpp: what the owner waits for in vain, and what the destructor does.
use event_loop.Prelude.{ℕ, ◌≡◌, ◌⊎◌, Bool, false, none, arith}
use event_loop.CountDownLatch.{must_wait, count_down}
use event_loop.Thread
use event_loop.Thread.{Thread, run_in_thread}
use event_loop.EventLoopThread.{
  Owner, idle, at_latch, asleep_at_latch, at_loop, asleep_at_loop, quitting, joining, done,
  returned, Child, unborn, born, counted, called, published, looping, leaving, finished,
  EventLoopThread, start_thread, test_latch, test_loop, announce, call_back, publish, enter_loop,
  clear_loop, destroy, quit_and_join,
}
use event_loop.EventLoopThread.Steps.{
  Step, starts, tests_latch, tests_loop, wakes_at_latch, wakes_at_loop, announces, calls_back,
  publishes, enters, functor_quits, leaves, clears, destroys, quits, joins, Reach, here, next,
}

-- In startLoop, after the start of the thread.
abbrev pub IsInStart : Owner → Type 0
IsInStart idle = ⊥
IsInStart at_latch = Unit {0}
IsInStart asleep_at_latch = Unit {0}
IsInStart at_loop = Unit {0}
IsInStart asleep_at_loop = Unit {0}
IsInStart quitting = ⊥
IsInStart joining = ⊥
IsInStart done = ⊥
IsInStart (returned l) = ⊥

abbrev pub IsOver : Child → Type 0
IsOver unborn = Unit {0}
IsOver born = ⊥
IsOver counted = ⊥
IsOver called = ⊥
IsOver published = ⊥
IsOver looping = ⊥
IsOver leaving = ⊥
IsOver finished = Unit {0}

-- startLoop waits for a thread that was not made, or that has ended its loop.
abbrev pub IsMissed : EventLoopThread → Type 0
IsMissed s = IsInStart s.owner × IsOver s.child × (s.loop ≡ none)

-- The destructor has said `quit` and waits for a thread that is still before `loop`, or that entered it since.
abbrev pub IsEarly : EventLoopThread → Type 0
IsEarly s = (s.owner ≡ joining) × ((s.child ≡ published) ⊎ ((s.child ≡ looping) × (s.quit ≡ false)))

module _ (tid address : ℕ) where
  Step-IsMissed :
      {created may_quit : Bool} {s t : EventLoopThread}
      → Step created may_quit tid address s t
      → IsMissed s
      → IsMissed t
  unfolding start_thread test_latch test_loop announce call_back publish enter_loop clear_loop
      destroy quit_and_join Thread.start Thread.join run_in_thread count_down must_wait
  Step-IsMissed {s} (starts o e) v = ground arith
  Step-IsMissed {s} (tests_latch o e) v = ground arith
  Step-IsMissed {s} (tests_loop o e) v = ground arith
  Step-IsMissed {s} (wakes_at_latch o e) v = ground arith
  Step-IsMissed {s} (wakes_at_loop o e) v = ground arith
  Step-IsMissed {s} (announces o e) v = ground arith
  Step-IsMissed {s} (calls_back o e) v = ground arith
  Step-IsMissed {s} (publishes o e) v = ground arith
  Step-IsMissed {s} (enters o e) v = ground arith
  Step-IsMissed {s} (functor_quits m o e) v = ground arith
  Step-IsMissed {s} (leaves o q e) v = ground arith
  Step-IsMissed {s} (clears o e) v = ground arith
  Step-IsMissed {s} (destroys l o e) v = ground arith
  Step-IsMissed {s} (quits o e) v = ground arith
  Step-IsMissed {s} (joins o d e) v = ground arith

  -- If startLoop was called and its thread could not be made, or has ended its loop before startLoop
  -- found it: whatever the threads do, startLoop goes on waiting.
  pub start_loop-hangs :
      {created may_quit : Bool} {s t : EventLoopThread}
      → Reach created may_quit tid address s t
      → IsMissed s
      → IsMissed t
  start_loop-hangs here v = v
  start_loop-hangs (next r e) v = Step-IsMissed e (start_loop-hangs r v)

  Step-IsEarly :
      {created : Bool} {s t : EventLoopThread}
      → Step created false tid address s t
      → IsEarly s
      → IsEarly t
  unfolding start_thread test_latch test_loop announce call_back publish enter_loop clear_loop
      destroy quit_and_join Thread.start Thread.join run_in_thread count_down must_wait
  Step-IsEarly {s} (starts o e) v = ground arith
  Step-IsEarly {s} (tests_latch o e) v = ground arith
  Step-IsEarly {s} (tests_loop o e) v = ground arith
  Step-IsEarly {s} (wakes_at_latch o e) v = ground arith
  Step-IsEarly {s} (wakes_at_loop o e) v = ground arith
  Step-IsEarly {s} (announces o e) v = ground arith
  Step-IsEarly {s} (calls_back o e) v = ground arith
  Step-IsEarly {s} (publishes o e) v = ground arith
  Step-IsEarly {s} (enters o e) v = ground arith
  Step-IsEarly {s} (functor_quits m o e) v = ground arith
  Step-IsEarly {s} (leaves o q e) v = ground arith
  Step-IsEarly {s} (clears o e) v = ground arith
  Step-IsEarly {s} (destroys l o e) v = ground arith
  Step-IsEarly {s} (quits o e) v = ground arith
  Step-IsEarly {s} (joins o d e) v = ground arith

  -- If the destructor has said `quit` when the thread had set `loop_` and not entered `loop` yet, and
  -- no functor of the loop calls `quit`: whatever the threads do, the destructor goes on waiting for
  -- the thread, since `loop` takes back what `quit` said.
  pub destructor-hangs :
      {created : Bool} {s t : EventLoopThread}
      → Reach created false tid address s t
      → IsEarly s
      → IsEarly t
  destructor-hangs here v = v
  destructor-hangs (next r e) v = Step-IsEarly e (destructor-hangs r v)
