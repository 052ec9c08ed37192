-- ===== src/EventLoopThread/Steps.antt =====
-- EventLoopThread.cpp: the steps of the two threads, in any order.
use event_loop.Prelude.{ℕ, ◌≡◌, Bool, true, ok}
use event_loop.EventLoopThread.{
  idle, at_latch, asleep_at_latch, at_loop, asleep_at_loop, quitting, joining, done, returned, born,
  counted, called, published, looping, leaving, finished, EventLoopThread, start_thread, test_latch,
  test_loop, announce, call_back, publish, enter_loop, clear_loop, destroy, quit_and_join,
}

-- Whether pthread_create(3) succeeds, whether functors of the loop may call its `quit`, the number of the new
-- thread, and the address of its loop.
module _ (created may_quit : Bool) (tid address : ℕ) where
  -- A wait may also end with no notification.
  pub data Step (s t : EventLoopThread) : Type 0 where
    starts : s.owner ≡ idle → start_thread created s ≡ ok t → Step s t
    tests_latch : s.owner ≡ at_latch → test_latch s ≡ ok t → Step s t
    tests_loop : s.owner ≡ at_loop → t ≡ test_loop s → Step s t
    wakes_at_latch : s.owner ≡ asleep_at_latch → t ≡ record s { owner = at_latch } → Step s t
    wakes_at_loop : s.owner ≡ asleep_at_loop → t ≡ record s { owner = at_loop } → Step s t
    announces : s.child ≡ born → t ≡ announce tid s → Step s t
    calls_back : s.child ≡ counted → t ≡ call_back address s → Step s t
    publishes : s.child ≡ called → t ≡ publish address s → Step s t
    enters : s.child ≡ published → t ≡ enter_loop s → Step s t
    functor_quits : may_quit ≡ true → s.child ≡ looping → t ≡ record s { quit = true } → Step s t
    leaves : s.child ≡ looping → s.quit ≡ true → t ≡ record s { child = leaving } → Step s t
    clears : s.child ≡ leaving → t ≡ clear_loop s → Step s t
    destroys : (l : ℕ) → s.owner ≡ returned l → t ≡ destroy s → Step s t
    quits : s.owner ≡ quitting → quit_and_join s ≡ ok t → Step s t
    joins : s.owner ≡ joining → s.child ≡ finished → t ≡ record s { owner = done } → Step s t

  pub data Reach (s : EventLoopThread) : EventLoopThread → Type 0 where
    here : Reach s s
    next : {t u : EventLoopThread} → Reach s t → Step t u → Reach s u
