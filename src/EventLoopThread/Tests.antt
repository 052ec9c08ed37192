-- ===== src/EventLoopThread/Tests.antt =====
-- Runs of the two threads, for examples.
use event_loop.Prelude.{◌≡◌, refl, inl, true, false, [], ◌∷◌, none, some, ok, pos, arith}
use event_loop.CountDownLatch.{must_wait}
use event_loop.Thread
use event_loop.Thread.{Thread, new_thread, set_default_name, run_in_thread}
use event_loop.EventLoopThread.{
  idle, at_latch, asleep_at_latch, at_loop, joining, returned, unborn, born, published,
  EventLoopThread, new_event_loop_thread, start_thread, test_latch, test_loop, enter_loop,
}
use event_loop.EventLoopThread.Steps.{starts, tests_latch, tests_loop, enters, Reach, here, next}
use event_loop.EventLoopThread.Handshake.{
  IsHandshake, AreNotified, Reach-IsHandshake, start_loop-returns,
}
use event_loop.EventLoopThread.Hangs.{IsMissed, IsEarly, start_loop-hangs, destructor-hangs}

-- The thread `a`, of number 7, for a loop at 100, with a callback.
abbrev fresh : EventLoopThread
fresh = record {
  loop = none;
  exiting = false;
  thread = record {
    started = false;
    joined = false;
    tid = 0;
    name = b'a' ∷ [];
    latch = record { count = pos 1 };
  };
  has_callback = true;
  owner = idle;
  child = unborn;
  quit = false;
  calls = [];
}

fresh_is_new : new_event_loop_thread true 1 (b'a' ∷ []) ≡ fresh
unfolding new_event_loop_thread new_thread set_default_name
fresh_is_new = refl

fresh-IsHandshake : IsHandshake 100 fresh
fresh-IsHandshake = record {
  owner_is = refl;
  state_is = (refl, refl, refl, ground arith, ground arith, λ h. refl);
}

abbrev started : Thread
started = record fresh.thread { started = true }

-- The owner fell asleep at the latch.
abbrev asleep : EventLoopThread
asleep = record fresh { thread = started; owner = asleep_at_latch; child = born }

to_asleep : Reach true true 7 100 fresh asleep
unfolding start_thread Thread.start test_latch must_wait
to_asleep =
    next {t = record asleep { owner = at_latch }} (next here (starts refl refl))
      (tests_latch refl refl)

Reach-IsHandshake_example : IsHandshake 100 asleep
Reach-IsHandshake_example = Reach-IsHandshake true 7 100 (omega arith) to_asleep fresh-IsHandshake

start_loop-returns_example :
    (u : EventLoopThread) × (p : Reach true true 7 100 asleep u) × AreNotified true 7 100
      (omega arith)
      p
    × (u.owner ≡ returned 100)
start_loop-returns_example =
    start_loop-returns true 7 100 (omega arith) to_asleep fresh-IsHandshake tt (omega arith)

-- The thread could not be made.
abbrev missed : EventLoopThread
missed = record fresh { owner = at_loop }

to_missed : start_thread false fresh ≡ ok missed
unfolding start_thread Thread.start
to_missed = refl

missed_on : Reach false true 7 100 missed (test_loop missed)
missed_on = next here (tests_loop refl refl)

start_loop-hangs_example : IsMissed (test_loop missed)
start_loop-hangs_example = start_loop-hangs 7 100 missed_on (tt, tt, refl)

-- The thread set `loop_`, and the destructor has said `quit`.
abbrev early : EventLoopThread
early = record fresh {
  thread = record started { joined = true };
  loop = some 100;
  quit = true;
  owner = joining;
  child = published;
}

early_on : Reach true false 7 100 early (enter_loop early)
early_on = next here (enters refl refl)

destructor-hangs_example : IsEarly (enter_loop early)
destructor-hangs_example = destructor-hangs 7 100 early_on (refl, inl refl)
