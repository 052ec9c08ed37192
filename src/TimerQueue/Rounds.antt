-- ===== src/TimerQueue/Rounds.antt =====
-- TimerQueue.cpp: a whole `handleRead`.
use event_loop.Prelude.{
  ℕ, ◌-◌, ◌^◌, ◌<◌, ◌≡◌, refl, sym, ap, subst, ◌∙◌, Bool, true, false, not, ◌&&◌, Option, none,
  some, List, [], ◌∷◌, ltb, leb, ◌==◌, ==_iff, lt→ltb, if◌then◌else◌, Bool-cases, inl, inr, Result,
  ok, arith,
}
use event_loop.OrderedPairs.{Pair, contains, AllAfter, IsSorted}
use event_loop.TimerQueue.{
  Timer, TimerQueue, get_expired, next_expire, reset, run_all, handle_read, cancel_in_loop,
}
use event_loop.TimerQueue.Changes.{armed_lem, cancel_in_loop_lem}
use event_loop.TimerQueue.Linked.{Linked, numbered, expires, is_alive, other-Linked, timers_lem}
use event_loop.TimerQueue.Expired.{is_due, get_expired_lem}
use event_loop.TimerQueue.Reset.{
  IsOther, AreDistinct, AreIdle, AreSettled, reset_all-Resets, alive_lem,
}

IsOther-all :
    (heap : ℕ → Option Timer) (time t : ℕ) (es : List Pair)
    → expires (heap t) time ≡ true
    → AllAfter (time, t) es
    → ((time t : ℕ) → contains (time, t) es ≡ true → expires (heap t) time ≡ true)
    → IsOther t es
unfolding contains
IsOther-all heap time t [] e a h = tt
IsOther-all heap time t ((time', t') ∷ es) e (p, a) h = (
  elim (Bool-cases (t == t')) [
    | inr n ↦ n
    | inl n ↦
        let (timer, g) = some_lem (heap t) e in
        absurd (ground (arith, h time' t', ap heap ((==_iff t t').0 n), g))
  ],
  IsOther-all heap time t es e a (λ time'' t'' k. h time'' t'' (ground (arith, k))),
)
  where
    some_lem : (v : Option Timer) → expires v time ≡ true → (timer : Timer) × (v ≡ some timer)
    some_lem none k = cc
    some_lem (some timer) k = (timer, refl)

AreDistinct-all :
    (heap : ℕ → Option Timer) (es : List Pair)
    → IsSorted es
    → ((time t : ℕ) → contains (time, t) es ≡ true → expires (heap t) time ≡ true)
    → AreDistinct es
unfolding contains
AreDistinct-all heap [] s h = tt
AreDistinct-all heap ((time, t) ∷ es) (a, s) h =
    let rest =
      λ (time' t' : ℕ) (k : contains (time', t') es ≡ true). h time' t' (ground (arith, k)) in
    (IsOther-all heap time t es (h time t (ground arith)) a rest, AreDistinct-all heap es s rest)

AreIdle-all :
    (heap : ℕ → Option Timer) (queued : ℕ → Bool) (es : List Pair)
    → ((time t : ℕ)
        → contains (time, t) es ≡ true
        → (is_alive (heap t) ≡ true) × (queued t ≡ false) × (t < 2 ^ 64 - 1))
    → AreIdle heap queued es
unfolding contains
AreIdle-all heap queued [] h = tt
AreIdle-all heap queued ((time, t) ∷ es) h = (
  h time t (ground arith),
  AreIdle-all heap queued es (λ time' t' k. h time' t' (ground (arith, k))),
)

-- A timer that is called: it fails nothing, keeps the sets linked, and neither frees nor queues a live
-- timer that is not queued.
pub record Keeps (run : TimerQueue → Result TimerQueue) (q : TimerQueue) (queued : ℕ → Bool)
    : Type 0 where
  pub after : TimerQueue
  pub queued_after : ℕ → Bool
  pub returns : run q ≡ ok after
  pub linked : Linked after queued_after
  pub idle :
      (u : ℕ)
      → is_alive (q.heap u) ≡ true
      → queued u ≡ false
      → (is_alive (after.heap u) ≡ true) × (queued_after u ≡ false)

AreIdle-Keeps :
    {run : TimerQueue → Result TimerQueue} {q : TimerQueue} {queued : ℕ → Bool}
    (k : Keeps run q queued) (es : List Pair)
    → AreIdle q.heap queued es
    → AreIdle k.after.heap k.queued_after es
AreIdle-Keeps k [] i = tt
AreIdle-Keeps k ((time, t) ∷ es) ((a, b, c), i) =
    let (a', b') = k.idle t a b in ((a', b', c), AreIdle-Keeps k es i)

run_all-Keeps :
    (run : ℕ → TimerQueue → Result TimerQueue)
    → ((t : ℕ) (q : TimerQueue) (queued : ℕ → Bool) → Linked q queued → Keeps (run t) q queued)
    → (es : List Pair) (q : TimerQueue) (queued : ℕ → Bool) → Linked q queued
    → AreIdle q.heap queued es
    → Keeps (run_all run es) q queued
unfolding run_all
run_all-Keeps run keep [] q queued l i = record {
  after = q;
  queued_after = queued;
  returns = refl;
  linked = l;
  idle = λ u a b. (a, b);
}
run_all-Keeps run keep ((time, t) ∷ es) q queued l ((a, b, c), i) =
    let (timer, e) = alive_lem (q.heap t) a in
    let k = keep t q queued l in
    let r = run_all-Keeps run keep es k.after k.queued_after k.linked (AreIdle-Keeps k es i) in
    record {
      after = r.after;
      queued_after = r.queued_after;
      returns = rw (e, k.returns, r.returns);
      linked = r.linked;
      idle = λ u live off. let (live', off') = k.idle u live off in r.idle u live' off';
    }

-- A callback that cancels a timer, its own or another.
pub cancel-Keeps :
    (t number : ℕ) (q : TimerQueue) (queued : ℕ → Bool)
    → Linked q queued
    → Keeps (λ q. cancel_in_loop q (t, number)) q queued
cancel-Keeps t number q queued l =
    let (q', e, l', _, others, _) = cancel_in_loop_lem q t number l in
    record {
      after = q';
      queued_after = λ u. not (u == t && numbered (q.heap t) number) && queued u;
      returns = e;
      linked = l';
      idle = λ u live off. (ap is_alive (others u off) ∙ live, ground (arith, off));
    }

-- The alarm is set for the first timer.
abbrev pub IsArmed : TimerQueue → Type 0
IsArmed q =
    (first t : ℕ) (rest : List Pair)
    → q.timers ≡ (first, t) ∷ rest
    → 0 < first
    → q.alarm ≡ some first

contains_head : (first t : ℕ) (rest : List Pair) → contains (first, t) ((first, t) ∷ rest) ≡ true
unfolding contains
contains_head first t rest = ground arith

next_expire_lem :
    {q : TimerQueue} {queued : ℕ → Bool}
    → Linked q queued
    → (next : ℕ) × (next_expire q q.timers ≡ ok next)
      × ((first t : ℕ) (rest : List Pair) → q.timers ≡ (first, t) ∷ rest → next ≡ first)
unfolding next_expire
next_expire_lem {q} {queued} l = at q.timers refl
  where
    at :
        (ts : List Pair)
        → q.timers ≡ ts
        → (next : ℕ) × (next_expire q ts ≡ ok next)
          × ((first t : ℕ) (rest : List Pair) → ts ≡ (first, t) ∷ rest → next ≡ first)
    at [] e = (0, refl, λ first t rest h. cc)
    at ((first, t) ∷ rest) e =
        let (timer, g, f, _) = timers_lem l first t (rw e (contains_head first t rest)) in
        (timer.expiration, rw g, λ first' t' rest' h. f ∙ cc)

reset_lem :
    (now : ℕ) (q : TimerQueue) (queued : ℕ → Bool) (es : List Pair)
    → Linked q queued
    → AreDistinct es
    → AreIdle q.heap queued es
    → (q' : TimerQueue) × (queued' : ℕ → Bool) × (reset q es now ≡ ok q')
      × Linked q' queued'
      × AreSettled now q q'.heap queued' es
      × IsArmed q'
unfolding reset
reset_lem now q queued es l d i =
    let r = reset_all-Resets now q queued es l d i in
    let (next, e, first) = next_expire_lem r.linked in
    let q' : TimerQueue = record r.after {
      alarm = if ltb 0 next then some next else r.after.alarm;
    } in
    (
      q',
      r.queued_after,
      rw (r.returns, e) (ap ok (armed_lem (ltb 0 next) r.after next)),
      other-Linked r.linked r.after.created r.after.canceling r.after.calling q'.alarm,
      r.settled,
      λ time t rest h p. rw (first time t rest h, lt→ltb 0 time p) refl,
    )

-- The timers that are queued once those that are due are taken out.
abbrev still : TimerQueue → (ℕ → Bool) → ℕ → ℕ → Bool
still q queued now t = queued t && not (is_due (q.heap t) now)

module _ {q : TimerQueue} {queued : ℕ → Bool} (l : Linked q queued) (now : ℕ) (expired : List Pair)
    (members : (time t : ℕ)
      → contains (time, t) expired ≡ contains (time, t) q.timers && leb time now) where
  due-expires : (time t : ℕ) → contains (time, t) expired ≡ true → expires (q.heap t) time ≡ true
  due-expires time t h =
      let (timer, e, f, _) = timers_lem l time t (ground (arith, members time t)) in
      ground (arith, e, f)

  due-AreIdle : AreIdle q.heap (still q queued now) expired
  due-AreIdle = AreIdle-all q.heap (still q queued now) expired (λ time t h.
      let (timer, e, f, on) = timers_lem l time t (ground (arith, members time t)) in
      (ground (arith, e), ground (arith, e, f, members time t), l.addresses t on))

-- Callbacks that keep the sets linked and the timers that are called alive, run from a queue whose sets are
-- linked, fail no assertion in `handleRead`. It calls the timers that are due and no other, each once, in
-- the order of their times and, for one time, of their addresses. Of those, after the callbacks, each that repeats and was not cancelled meanwhile is queued again, later by
-- its interval, and each other is freed; the sets are linked again. The alarm is set for
-- the first timer that is queued, if its time is valid.
pub handle_read_lem :
    (run : ℕ → TimerQueue → Result TimerQueue) (q : TimerQueue) (queued : ℕ → Bool) (now : ℕ)
    → ((t : ℕ) (q : TimerQueue) (queued : ℕ → Bool) → Linked q queued → Keeps (run t) q queued)
    → Linked q queued
    → (expired : List Pair) × (taken called q' : TimerQueue) × (queued' : ℕ → Bool) × (get_expired q
          now
        ≡ ok (expired, taken))
      × ((time t : ℕ) → contains (time, t) expired ≡ contains (time, t) q.timers && leb time now)
      × IsSorted expired
      × (run_all run expired (record taken { calling = true; canceling = [] }) ≡ ok called)
      × (handle_read run q now ≡ ok q')
      × Linked q' queued'
      × AreSettled now (record called { calling = false }) q'.heap queued' expired
      × IsArmed q'
unfolding handle_read
handle_read_lem run q queued now keep l =
    let (expired, taken, e, _, members, sorted, heap, l1) = get_expired_lem l now in
    let start : TimerQueue = record taken { calling = true; canceling = [] } in
    let k =
      run_all-Keeps run keep expired start (still q queued now)
        (other-Linked l1 taken.created [] true taken.alarm)
        (subst (λ h. AreIdle h (still q queued now) expired) (sym heap)
          (due-AreIdle l now expired members)) in
    let (q', queued', r, l2, s, armed) =
      reset_lem now (record k.after { calling = false }) k.queued_after expired
        (other-Linked k.linked k.after.created k.after.canceling false k.after.alarm)
        (AreDistinct-all q.heap expired sorted (due-expires l now expired members))
        (AreIdle-Keeps k expired (
          subst (λ h. AreIdle h (still q queued now) expired) (sym heap)
            (due-AreIdle l now expired members))) in
    (
      expired,
      taken,
      k.after,
      q',
      queued',
      e,
      members,
      sorted,
      k.returns,
      rw (e, k.returns, r),
      l2,
      s,
      armed,
    )
