-- ===== src/TimerQueue/Changes.antt =====
-- TimerQueue.cpp: adding and cancelling a timer.
use event_loop.Prelude.{
  ℕ, ◌+◌, ◌-◌, ◌^◌, ◌≤◌, ◌<◌, ◌≡◌, refl, ap, Bool, true, false, not, ◌&&◌, ◌||◌, Option, none, some,
  List, [], ◌∷◌, ◌==◌, ==_iff, ==_self, if◌then◌else◌, Bool-cases, inl, inr, ok, arith,
}
use event_loop.OrderedPairs.{Pair, contains, insert}
use event_loop.OrderedPairs.Laws.{contains-insert}
use event_loop.TimerQueue.{
  Timer, TimerQueue, store, earliest_changed, reset_timerfd, add_timer_in_loop, add_timer,
  cancel_in_loop,
}
use event_loop.TimerQueue.Linked.{
  Linked, numbered, store-Linked, inserted, insert_live_lem, free_lem, other-Linked, same-Linked,
  cancel_found_lem,
}

abbrev alarm_after : TimerQueue → ℕ → Option ℕ
alarm_after q time = if earliest_changed q.timers time then some time else q.alarm

pub armed_lem :
    (b : Bool) (q : TimerQueue) (time : ℕ)
    → (if b then reset_timerfd q time else q)
      ≡ record q { alarm = if b then some time else q.alarm }
armed_lem true q time = refl
armed_lem false q time = refl

abbrev made : ℕ → ℕ → Bool → ℕ → Timer
made time interval positive number = record {
  expiration = time;
  interval = interval;
  repeat = positive;
  sequence = number;
}

-- A timer that is added at a free address is queued, whatever its time; no assertion fails. The alarm
-- is set to its time if no timer is queued or if the first one is due earlier; it is left
-- where it was if the new timer is due no later than the first one.
pub add_timer_lem :
    (q : TimerQueue) {queued : ℕ → Bool} (t time interval : ℕ) (positive : Bool)
    → Linked q queued
    → q.heap t ≡ none
    → t < 2 ^ 64 - 1
    → (q' : TimerQueue) × (add_timer q t time interval positive ≡ ok (q', (t, q.created + 1)))
      × Linked q' (λ u. u == t || queued u)
      × (contains (time, t) q'.timers ≡ true)
      × (q.timers ≡ [] → q'.alarm ≡ some time)
      × ((first a : ℕ) (rest : List Pair)
          → q.timers ≡ (first, a) ∷ rest
          → (first < time → q'.alarm ≡ some time) × (time ≤ first → q'.alarm ≡ q.alarm))
unfolding add_timer add_timer_in_loop
add_timer_lem q {queued} t time interval positive l free small =
    let number = q.created + 1 in
    let timer = made time interval positive number in
    let q0 : TimerQueue = record q { heap = store q.heap t (some timer); created = number } in
    let idle = free_lem l t free in
    let l0 : Linked q0 queued =
      other-Linked (store-Linked l t (some timer) idle) number q.canceling q.calling q.alarm in
    let (e, l1) = insert_live_lem l0 t timer (rw ==_self) idle small in
    (
      record (inserted l0 t timer) { alarm = alarm_after q time },
      rw (==_self t, e)
          (ap (λ x. ok (x, (t, number)))
            (armed_lem (earliest_changed q.timers time) (inserted l0 t timer) time)),
      other-Linked l1 number q.canceling q.calling (alarm_after q time),
      ground (arith, contains-insert (time, t) (time, t) q.timers),
      λ h. rw h refl,
      λ first a rest h. (λ lt. ground arith, λ le. ground arith),
    )

-- `cancelInLoop` fails no assertion, also for the id of a timer that is gone. A timer that is queued under
-- its number is freed and is queued no longer; every other one stays. While timers are called, an id
-- that is not found is kept for `reset`. No timer is freed that is not queued.
pub cancel_in_loop_lem :
    (q : TimerQueue) {queued : ℕ → Bool} (t number : ℕ)
    → Linked q queued
    → (q' : TimerQueue) × (cancel_in_loop q (t, number) ≡ ok q')
      × Linked q' (λ u. not (u == t && numbered (q.heap t) number) && queued u)
      × (contains (t, number) q.active ≡ true → q'.heap t ≡ none)
      × ((u : ℕ) → queued u ≡ false → q'.heap u ≡ q.heap u)
      × (contains (t, number) q.active ≡ false
          → q'.canceling ≡ (if q.calling then insert (t, number) q.canceling else q.canceling))
unfolding cancel_in_loop
cancel_in_loop_lem q {queued} t number l = elim (Bool-cases (contains (t, number) q.active)) [
  | inl h ↦
      let (q', e, l', freed, others) = cancel_found_lem l t number h in
      (
        q',
        ground (arith, l.sizes, l'.sizes),
        same-Linked l' _ (λ u. ground (arith, l.active_are t number, h)),
        (λ _. freed),
        others,
        λ missing. absurd (ground arith),
      )
  | inr h ↦ (
    record q { canceling = if q.calling then insert (t, number) q.canceling else q.canceling },
    ground (arith, l.sizes, h),
    same-Linked (other-Linked l q.created _ q.calling q.alarm) _ (λ u. elim (Bool-cases (u == t)) [
      | inl g ↦ ground (arith, l.active_are t number, h, ap queued ((==_iff u t).0 g))
      | inr g ↦ ground arith
    ]),
    (λ found. absurd (ground arith)),
    (λ u off. refl),
    λ _. refl,
  )
]
