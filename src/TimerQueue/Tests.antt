-- ===== src/TimerQueue/Tests.antt =====
-- TimerQueue.cpp at concrete queues.
use event_loop.Prelude.{
  ℕ, ◌<◌, ◌≤◌, ◌≡◌, refl, Bool, true, false, not, ◌&&◌, ◌||◌, none, some, List, [], ◌∷◌, leb, ◌==◌,
  if◌then◌else◌, ok, arith,
}
use event_loop.OrderedPairs.{Pair, contains, insert, IsSorted}
use event_loop.TimerQueue.{
  Timer, TimerQueue, store, add_timer, cancel_in_loop, get_expired, run_all, handle_read,
}
use event_loop.TimerQueue.Linked.{Linked, numbered}
use event_loop.TimerQueue.Changes.{add_timer_lem, cancel_in_loop_lem}
use event_loop.TimerQueue.Reset.{AreSettled}
use event_loop.TimerQueue.Rounds.{IsArmed, cancel-Keeps, handle_read_lem}

-- The timer at address 16 is due at 100 and every 50 from then on.
abbrev ticks : Timer
ticks = record { expiration = 100; interval = 50; repeat = true; sequence = 1 }

abbrev one_timer : TimerQueue
one_timer = record {
  heap = store (λ t. none) 16 (some ticks);
  created = 1;
  timers = (100, 16) ∷ [];
  active = (16, 1) ∷ [];
  canceling = [];
  calling = false;
  alarm = some 100;
}

abbrev only : ℕ → Bool
only t = t == 16

one_timer-Linked : Linked one_timer only
unfolding contains
one_timer-Linked = record {
  timers_sorted = (tt, tt);
  active_sorted = (tt, tt);
  timers_are = λ time t. ground arith;
  active_are = λ t number. ground arith;
  sizes = refl;
  addresses = λ t h. ground (arith, h);
  alive = λ t h. ground (arith, h);
}

-- A timer at 32 that is due at 60, before the first.
add_timer_lem_example :
    (q' : TimerQueue) × (add_timer one_timer 32 60 0 false ≡ ok (q', (32, 2)))
    × Linked q' (λ u. u == 32 || only u)
    × (contains (60, 32) q'.timers ≡ true)
    × (one_timer.timers ≡ [] → q'.alarm ≡ some 60)
    × ((first a : ℕ) (rest : List Pair)
        → one_timer.timers ≡ (first, a) ∷ rest
        → (first < 60 → q'.alarm ≡ some 60) × (60 ≤ first → q'.alarm ≡ one_timer.alarm))
add_timer_lem_example = add_timer_lem one_timer 32 60 0 false one_timer-Linked refl (omega arith)

cancel_in_loop_lem_example :
    (q' : TimerQueue) × (cancel_in_loop one_timer (16, 1) ≡ ok q')
    × Linked q' (λ u. not (u == 16 && numbered (one_timer.heap 16) 1) && only u)
    × (contains (16, 1) one_timer.active ≡ true → q'.heap 16 ≡ none)
    × ((u : ℕ) → only u ≡ false → q'.heap u ≡ one_timer.heap u)
    × (contains (16, 1) one_timer.active ≡ false
        → q'.canceling
          ≡ (if one_timer.calling then insert (16, 1) one_timer.canceling else one_timer.canceling))
cancel_in_loop_lem_example = cancel_in_loop_lem one_timer 16 1 one_timer-Linked

-- The timer cancels itself when it is called.
handle_read_lem_example :
    (expired : List Pair) × (taken called q' : TimerQueue) × (queued' : ℕ → Bool) × (get_expired
        one_timer 120
      ≡ ok (expired, taken))
    × ((time t : ℕ)
        → contains (time, t) expired ≡ contains (time, t) one_timer.timers && leb time 120)
    × IsSorted expired
    × (run_all
          (λ t q. cancel_in_loop q (16, 1))
          expired
          (record taken { calling = true; canceling = [] })
        ≡ ok called)
    × (handle_read (λ t q. cancel_in_loop q (16, 1)) one_timer 120 ≡ ok q')
    × Linked q' queued'
    × AreSettled 120 (record called { calling = false }) q'.heap queued' expired
    × IsArmed q'
handle_read_lem_example =
    handle_read_lem (λ t q. cancel_in_loop q (16, 1)) one_timer only 120 (λ t. cancel-Keeps 16 1)
      one_timer-Linked
