-- ===== src/EventLoopThread/Handshake.antt =====
-- EventLoopThread.cpp: what startLoop waits for.
use event_loop.Prelude.{
  ◌*◌, ◌-◌, ◌⊎◌, inl, inr, Bool-cases, Option-cases, ℕ, zero, suc, ◌+◌, ◌<◌, ◌≡◌, refl, Bool, true,
  false, Option, none, some, List, [], ◌∷◌, leb, if◌then◌else◌, pos, arith,
}
use event_loop.CountDownLatch.{must_wait, count_down}
use event_loop.Thread
use event_loop.Thread.{Thread, run_in_thread}
use event_loop.EventLoopThread.{
  Owner, idle, at_latch, asleep_at_latch, at_loop, asleep_at_loop, quitting, joining, done,
  returned, Child, unborn, born, counted, called, published, looping, leaving, finished,
  EventLoopThread, start_thread, test_latch, test_loop, announce, call_back, publish, enter_loop,
  clear_loop, destroy, quit_and_join,
}
use event_loop.EventLoopThread.Steps.{
  Step, starts, tests_latch, tests_loop, wakes_at_latch, wakes_at_loop, announces, calls_back,
  publishes, enters, functor_quits, leaves, clears, destroys, quits, joins, Reach, here, next,
}

-- How far the new thread is.
abbrev pub age : Child → ℕ
age unborn = 0
age born = 1
age counted = 2
age called = 3
age published = 4
age looping = 5
age leaving = 6
age finished = 7

abbrev pub loop_at : ℕ → Child → Option ℕ
loop_at address unborn = none
loop_at address born = none
loop_at address counted = none
loop_at address called = none
loop_at address published = some address
loop_at address looping = some address
loop_at address leaving = some address
loop_at address finished = none

abbrev pub calls_at : ℕ → Bool → Child → List ℕ
calls_at address b c = if b then (if leb 3 (age c) then address ∷ [] else []) else []

-- What holds where the owner is: a thread that sleeps has not been called yet, and what startLoop returned is
-- the loop of a thread that ran its callback.
abbrev pub IsSoundAt : ℕ → Child → Owner → Type 0
IsSoundAt address c idle = c ≡ unborn
IsSoundAt address c at_latch = 0 < age c
IsSoundAt address c asleep_at_latch = c ≡ born
IsSoundAt address c at_loop = 1 < age c
IsSoundAt address c asleep_at_loop = (1 < age c) × (loop_at address c ≡ none)
IsSoundAt address c (returned l) = (l ≡ address) × (3 < age c)
IsSoundAt address c quitting = 3 < age c
IsSoundAt address c joining = 3 < age c
IsSoundAt address c done = 3 < age c

-- What the fields are, as far as the new thread is.
abbrev pub IsStateOf : ℕ → EventLoopThread → Type 0
IsStateOf address s =
    (s.loop ≡ loop_at address s.child)
    × (s.calls ≡ calls_at address s.has_callback s.child)
    × (s.thread.latch.count ≡ (if leb 2 (age s.child) then pos 0 else pos 1))
    × (1 < age s.child → 0 < s.thread.tid)
    × (0 < age s.child → s.thread.started ≡ true)
    × (s.owner ≡ idle → s.thread.started ≡ false)

pub record IsHandshake (address : ℕ) (s : EventLoopThread) : Type 0 where
  pub owner_is : IsSoundAt address s.child s.owner
  pub state_is : IsStateOf address s

-- A thread whose owner sleeps for its loop has not set it yet, or has ended.
asleep_cases :
    (address : ℕ) (c : Child)
    → 1 < age c
    → age c < 7
    → loop_at address c ≡ none
    → (c ≡ counted) ⊎ (c ≡ called)
asleep_cases address c h k e = ground arith

module _ (may_quit : Bool) (tid address : ℕ) (some_tid : 0 < tid) where
  Step-owner_is :
      {s t : EventLoopThread}
      → Step true may_quit tid address s t
      → IsHandshake address s
      → IsSoundAt address t.child t.owner
  unfolding start_thread test_latch test_loop announce call_back publish enter_loop clear_loop
      destroy quit_and_join Thread.start Thread.join run_in_thread count_down must_wait
  Step-owner_is {s} (starts o e) v = ground arith
  Step-owner_is {s} (tests_latch o e) v = ground arith
  Step-owner_is {s} (tests_loop o e) v = ground arith
  Step-owner_is {s} (wakes_at_latch o e) v = ground arith
  Step-owner_is {s} (wakes_at_loop o e) v = ground arith
  Step-owner_is {s} (announces o e) v = ground arith
  Step-owner_is {s} (calls_back o e) v = ground arith
  Step-owner_is {s} (publishes o e) v = ground arith
  Step-owner_is {s} (enters o e) v = ground arith
  Step-owner_is {s} (functor_quits m o e) v = ground arith
  Step-owner_is {s} (leaves o q e) v = ground arith
  Step-owner_is {s} (clears o e) v = ground arith
  Step-owner_is {s} (destroys l o e) v = ground arith
  Step-owner_is {s} (quits o e) v = ground arith
  Step-owner_is {s} (joins o d e) v = ground arith

  Step-state_is :
      {s t : EventLoopThread}
      → Step true may_quit tid address s t
      → IsHandshake address s
      → IsStateOf address t
  unfolding start_thread test_latch test_loop announce call_back publish enter_loop clear_loop
      destroy quit_and_join Thread.start Thread.join run_in_thread count_down must_wait
  Step-state_is {s} (starts o e) v = ground arith
  Step-state_is {s} (tests_latch o e) v = ground arith
  Step-state_is {s} (tests_loop o e) v = ground arith
  Step-state_is {s} (wakes_at_latch o e) v = ground arith
  Step-state_is {s} (wakes_at_loop o e) v = ground arith
  Step-state_is {s} (announces o e) v = ground arith
  Step-state_is {s} (calls_back o e) v = ground arith
  Step-state_is {s} (publishes o e) v = ground arith
  Step-state_is {s} (enters o e) v = ground arith
  Step-state_is {s} (functor_quits m o e) v = ground arith
  Step-state_is {s} (leaves o q e) v = ground arith
  Step-state_is {s} (clears o e) v = ground arith
  Step-state_is {s} (destroys l o e) v = ground arith
  Step-state_is {s} (quits o e) v = ground arith
  Step-state_is {s} (joins o d e) v = ground arith

  -- From a state where this holds, such as a new object, if its thread can be made, whatever the two
  -- threads do in whatever order, with waits that end for no reason too: it holds again. So what
  -- startLoop returned is the loop of the new thread, which has a number and called the callback, if
  -- there is one, once with that loop; an owner that sleeps at the latch has a thread that is still
  -- to count down; and one that sleeps for the loop finds none, as it is not set yet or is over.
  pub Reach-IsHandshake :
      {s t : EventLoopThread}
      → Reach true may_quit tid address s t
      → IsHandshake address s
      → IsHandshake address t
  Reach-IsHandshake here v = v
  Reach-IsHandshake (next r e) v =
      let w = Reach-IsHandshake r v in
      record { owner_is = Step-owner_is e w; state_is = Step-state_is e w }

  -- Before startLoop has returned.
  abbrev pub IsWaiting : Owner → Type 0
  IsWaiting idle = Unit {0}
  IsWaiting at_latch = Unit {0}
  IsWaiting asleep_at_latch = Unit {0}
  IsWaiting at_loop = Unit {0}
  IsWaiting asleep_at_loop = Unit {0}
  IsWaiting quitting = ⊥
  IsWaiting joining = ⊥
  IsWaiting done = ⊥
  IsWaiting (returned l) = ⊥

  -- How far startLoop is from returning.
  abbrev rank_at : Owner → ℕ
  rank_at idle = 4
  rank_at at_latch = 3
  rank_at asleep_at_latch = 2
  rank_at at_loop = 1
  rank_at asleep_at_loop = 0
  rank_at quitting = 0
  rank_at joining = 0
  rank_at done = 0
  rank_at (returned l) = 0

  abbrev rank : EventLoopThread → ℕ
  rank s = 3 * (4 - age s.child) + rank_at s.owner

  -- A step that is no wait ending for no reason.
  abbrev pub IsNotified : {s t : EventLoopThread} → Step true may_quit tid address s t → Type 0
  IsNotified (starts o e) = Unit {0}
  IsNotified (tests_latch o e) = Unit {0}
  IsNotified (tests_loop o e) = Unit {0}
  IsNotified (wakes_at_latch o e) = ⊥
  IsNotified (wakes_at_loop o e) = ⊥
  IsNotified (announces o e) = Unit {0}
  IsNotified (calls_back o e) = Unit {0}
  IsNotified (publishes o e) = Unit {0}
  IsNotified (enters o e) = Unit {0}
  IsNotified (functor_quits m o e) = Unit {0}
  IsNotified (leaves o q e) = Unit {0}
  IsNotified (clears o e) = Unit {0}
  IsNotified (destroys l o e) = Unit {0}
  IsNotified (quits o e) = Unit {0}
  IsNotified (joins o d e) = Unit {0}

  abbrev pub AreNotified : {s t : EventLoopThread} → Reach true may_quit tid address s t → Type 0
  AreNotified here = Unit {0}
  AreNotified (next r e) = AreNotified r × IsNotified e

  CanReturn : EventLoopThread → Type 0
  CanReturn s =
      (t : EventLoopThread) × (r : Reach true may_quit tid address s t) × AreNotified r
      × (t.owner ≡ returned address)

  -- A step that brings startLoop nearer.
  CanApproach : EventLoopThread → Type 0
  CanApproach s =
      (t : EventLoopThread) × (e : Step true may_quit tid address s t) × IsNotified e
      × ((t.owner ≡ returned address) ⊎ (IsWaiting t.owner × (age t.child < 7) × (rank t < rank s)))

  nearer_at :
      (s : EventLoopThread) (o : Owner)
      → s.owner ≡ o
      → IsHandshake address s
      → IsSoundAt address s.child o
      → IsWaiting o
      → age s.child < 7
      → CanApproach s
  unfolding CanApproach start_thread test_latch test_loop announce call_back publish Thread.start
      run_in_thread count_down must_wait
  nearer_at s idle o v a w h =
      let t : EventLoopThread = record s {
        thread = record s.thread { started = true };
        owner = at_latch;
        child = born;
      } in
      (t, starts o (ground arith), tt, inr (ground arith))
  nearer_at s at_latch o v a w h = elim (Bool-cases (leb 2 (age s.child))) [
    | inl k ↦ (record s { owner = at_loop }, tests_latch o (ground arith), tt, inr (ground arith))
    | inr k ↦
        (record s { owner = asleep_at_latch }, tests_latch o (ground arith), tt, inr (ground arith))
  ]
  nearer_at s asleep_at_latch o v a w h = (announce tid s, announces a refl, tt, inr (ground arith))
  nearer_at s at_loop o v a w h = elim (Option-cases s.loop) [
    | inl k ↦ (test_loop s, tests_loop o refl, tt, inr (ground arith))
    | inr (l, k) ↦ (test_loop s, tests_loop o refl, tt, inl (ground arith))
  ]
  nearer_at s asleep_at_loop o v a w h = elim (asleep_cases address s.child a.0 h a.1) [
    | inl k ↦ (call_back address s, calls_back k refl, tt, inr (ground arith))
    | inr k ↦ (publish address s, publishes k refl, tt, inr (ground arith))
  ]
  nearer_at s quitting o v a w h = absurd w
  nearer_at s joining o v a w h = absurd w
  nearer_at s done o v a w h = absurd w
  nearer_at s (returned l) o v a w h = absurd w

  nearer :
      (s : EventLoopThread)
      → IsHandshake address s
      → IsWaiting s.owner
      → age s.child < 7
      → CanApproach s
  nearer s v w h = nearer_at s s.owner refl v v.owner_is w h

  returns_within :
      (n : ℕ) (s : EventLoopThread) {t : EventLoopThread}
      → (r : Reach true may_quit tid address s t) → AreNotified r
      → rank t < n
      → IsHandshake address t
      → IsWaiting t.owner
      → age t.child < 7
      → CanReturn s
  unfolding CanApproach CanReturn
  returns_within zero s r q k v w h = absurd (omega (arith, k))
  returns_within (suc n) s {t} r q k v w h =
      let (u, e, i, c) = nearer t v w h in
      elim c [
        | inl y ↦ (u, next r e, (q, i), y)
        | inr (w', h', less) ↦
            returns_within n s (next r e) (q, i) (omega (arith, k, less))
              (record { owner_is = Step-owner_is e v; state_is = Step-state_is e v }) w' h'
      ]

  -- From any state that the threads reach from a state where the handshake holds, such as a new
  -- object, if its thread can be made, where startLoop has not returned and the new thread has not
  -- ended: the threads can go on to where startLoop has returned the loop of the new thread, by steps among
  -- which no wait ends but by its notification.
  pub start_loop-returns :
      {s t : EventLoopThread}
      → Reach true may_quit tid address s t
      → IsHandshake address s
      → IsWaiting t.owner
      → age t.child < 7
      → (u : EventLoopThread) × (p : Reach true may_quit tid address t u) × AreNotified p
        × (u.owner ≡ returned address)
  unfolding CanReturn
  start_loop-returns {s} {t} r v w h =
      returns_within (suc (rank t)) t here tt (omega arith) (Reach-IsHandshake r v) w h
