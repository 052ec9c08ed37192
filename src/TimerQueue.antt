-- ===== src/TimerQueue.antt =====
-- src/TimerQueue.cpp, src/Timer.h and src/Timer.cpp. A `Timer*` is its address, and `heap` the timers
-- that live; a time is in microseconds, and `interval` is the number that `addTime` makes of the
-- interval. `alarm` is the time that `resetTimerfd` was last called with. The two ordered sets of pairs
-- are lists.
pub mod Linked
pub mod Changes
pub mod Expired
pub mod Reset
pub mod Rounds
mod Tests
use event_loop.Prelude.{
  ℕ, ◌+◌, ◌-◌, ◌^◌, Bool, true, false, not, ◌&&◌, Option, none, some, List, [], ◌∷◌, length, ltb,
  ◌==◌, if◌then◌else◌, Result, ok, err, undefined_access, check, ◌>>=◌, ◌>>◌,
}
use event_loop.OrderedPairs.{Pair, contains, insert, erase, split}

pub record Timer : Type 0 where
  pub expiration : ℕ
  pub interval : ℕ
  pub repeat : Bool
  pub sequence : ℕ

-- The pairs of `timers` are a time and an address, those of the other two an address and a number.
pub record TimerQueue : Type 0 where
  pub heap : ℕ → Option Timer
  pub created : ℕ
  pub timers : List Pair
  pub active : List Pair
  pub canceling : List Pair
  pub calling : Bool
  pub alarm : Option ℕ

-- `new` and `delete` at an address.
abbrev pub store : (ℕ → Option Timer) → ℕ → Option Timer → ℕ → Option Timer
store heap t v u = if u == t then v else heap u

abbrev pub or_fault : Option Timer → Result Timer
or_fault none = err undefined_access
or_fault (some timer) = ok timer

-- The timer at an address.
abbrev pub deref : TimerQueue → ℕ → Result Timer
deref q t = or_fault (q.heap t)

abbrev pub sizes_agree : TimerQueue → Bool
sizes_agree q = length q.timers == length q.active

-- The test of `insert`, as the source has it.
abbrev pub earliest_changed : List Pair → ℕ → Bool
earliest_changed [] time = true
earliest_changed ((first, t) ∷ rest) time = ltb first time

abbrev pub reset_timerfd : TimerQueue → ℕ → TimerQueue
reset_timerfd q time = record q { alarm = some time }

-- `insert` of a timer that lives.
unfoldable pub insert_live : TimerQueue → ℕ → Timer → Result (TimerQueue × Bool)
insert_live q t timer =
    check (sizes_agree q)
    >> check (not (contains (timer.expiration, t) q.timers))
    >> check (not (contains (t, timer.sequence) q.active))
    >> (let q' : TimerQueue = record q {
      timers = insert (timer.expiration, t) q.timers;
      active = insert (t, timer.sequence) q.active;
    } in
        check (sizes_agree q') >> ok (q', earliest_changed q.timers timer.expiration))

unfoldable pub insert_timer : TimerQueue → ℕ → Result (TimerQueue × Bool)
insert_timer q t = deref q t >>= (λ timer. insert_live q t timer)

unfoldable pub add_timer_in_loop : TimerQueue → ℕ → Result TimerQueue
add_timer_in_loop q t = deref q t >>= (λ timer.
    insert_live q t timer >>= (λ r. ok (if r.1 then reset_timerfd r.0 timer.expiration else r.0)))

-- `addTimer` in the loop's thread, for the address that `new` gives. Of the interval, a double, there are the
-- whole microseconds that are added to a time, and whether it is `> 0.0`.
unfoldable pub add_timer : TimerQueue → ℕ → ℕ → ℕ → Bool → Result (TimerQueue × Pair)
add_timer q t time interval positive =
    let number = q.created + 1 in
    let timer : Timer = record {
      expiration = time;
      interval = interval;
      repeat = positive;
      sequence = number;
    } in
    add_timer_in_loop (record q { heap = store q.heap t (some timer); created = number }) t
    >>= (λ q'. ok (q', (t, number)))

-- What `cancelInLoop` does when it finds the timer.
unfoldable pub cancel_found : TimerQueue → ℕ → ℕ → Result TimerQueue
cancel_found q t number = deref q t >>= (λ timer.
    check (contains (timer.expiration, t) q.timers)
    >> ok (record q {
      timers = erase (timer.expiration, t) q.timers;
      heap = store q.heap t none;
      active = erase (t, number) q.active;
    }))

unfoldable pub cancel_in_loop : TimerQueue → Pair → Result TimerQueue
cancel_in_loop q (t, number) =
    check (sizes_agree q)
    >> (if contains (t, number) q.active
        then cancel_found q t number
        else ok (if q.calling then record q { canceling = insert (t, number) q.canceling } else q))
    >>= (λ q'. check (sizes_agree q') >> ok q')

-- The loop that takes the expired timers out of `activeTimers_`.
unfoldable pub erase_active : List Pair → TimerQueue → Result TimerQueue
erase_active [] q = ok q
erase_active ((time, t) ∷ es) q = deref q t >>= (λ timer.
    check (contains (t, timer.sequence) q.active)
    >> erase_active es (record q { active = erase (t, timer.sequence) q.active }))

-- `end == timers_.end() || now < end->first`
abbrev pub all_later : ℕ → List Pair → Bool
all_later now [] = true
all_later now ((time, t) ∷ rest) = ltb now time

abbrev pub sentry : ℕ → Pair
sentry now = (now, 2 ^ 64 - 1)

unfoldable pub get_expired : TimerQueue → ℕ → Result (List Pair × TimerQueue)
get_expired q now =
    check (sizes_agree q)
    >> check (all_later now (split (sentry now) q.timers).1)
    >> erase_active (split (sentry now) q.timers).0
        (record q { timers = (split (sentry now) q.timers).1 })
    >>= (λ q'. check (sizes_agree q') >> ok ((split (sentry now) q.timers).0, q'))

abbrev pub restart : Timer → ℕ → Timer
restart timer now = record timer { expiration = if timer.repeat then now + timer.interval else 0 }

-- One round of the loop of `reset`.
unfoldable pub reset_one : ℕ → TimerQueue → ℕ → Timer → Result TimerQueue
reset_one now q t timer =
    if timer.repeat && not (contains (t, timer.sequence) q.canceling)
    then (let again = restart timer now in
        insert_live (record q { heap = store q.heap t (some again) }) t again >>= (λ r. ok r.0))
    else ok (record q { heap = store q.heap t none })

unfoldable pub reset_all : ℕ → List Pair → TimerQueue → Result TimerQueue
reset_all now [] q = ok q
reset_all now ((time, t) ∷ es) q =
    deref q t >>= (λ timer. reset_one now q t timer >>= (λ q'. reset_all now es q'))

-- The expiration of the first timer, or an invalid time.
unfoldable pub next_expire : TimerQueue → List Pair → Result ℕ
next_expire q [] = ok 0
next_expire q ((time, t) ∷ rest) = deref q t >>= (λ timer. ok timer.expiration)

unfoldable pub reset : TimerQueue → List Pair → ℕ → Result TimerQueue
reset q expired now = reset_all now expired q >>= (λ q'.
    next_expire q' q'.timers >>= (λ next. ok (if ltb 0 next then reset_timerfd q' next else q')))

-- `run` is what the callback of the timer at an address does to the queue.
unfoldable pub run_all :
    (ℕ → TimerQueue → Result TimerQueue) → List Pair → TimerQueue → Result TimerQueue
run_all run [] q = ok q
run_all run ((time, t) ∷ es) q = deref q t >>= (λ timer. run t q >>= (λ q'. run_all run es q'))

unfoldable pub handle_read :
    (ℕ → TimerQueue → Result TimerQueue) → TimerQueue → ℕ → Result TimerQueue
handle_read run q now = get_expired q now >>= (λ r.
    run_all run r.0 (record r.1 { calling = true; canceling = [] })
    >>= (λ q'. reset (record q' { calling = false }) r.0 now))
