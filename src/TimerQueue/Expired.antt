-- ===== src/TimerQueue/Expired.antt =====
-- TimerQueue.cpp: `getExpired` takes out what is due, and only that.
use event_loop.Prelude.{
  ℕ, ◌+◌, ◌<◌, ◌≡◌, refl, ap, Bool, true, false, not, ◌&&◌, Option, none, some, List, [], ◌∷◌, ◌++◌,
  length, leb, ◌==◌, ==_iff, eq→==, Bool-cases, Option-cases, inl, inr, ok, arith,
}
use event_loop.OrderedPairs.{Pair, contains, erase, split, AllAfter, IsSorted}
use event_loop.OrderedPairs.Laws.{
  contains-erase, erase-IsSorted, length-erase, split_append, split_lengths, split-IsSorted,
  contains-split,
}
use event_loop.TimerQueue.{Timer, TimerQueue, erase_active, sentry, all_later, get_expired}
use event_loop.TimerQueue.Linked.{Linked, numbered, timers_lem}

-- The entry is that of a live timer which is active.
abbrev IsReady : (ℕ → Option Timer) → List Pair → Pair → Type 0
IsReady heap active (time, t) =
    (timer : Timer) × (heap t ≡ some timer)
    × (timer.expiration ≡ time)
    × (contains (t, timer.sequence) active ≡ true)

abbrev AreReady : (ℕ → Option Timer) → List Pair → List Pair → Type 0
AreReady heap active [] = Unit {0}
AreReady heap active (e ∷ es) = IsReady heap active e × AreReady heap active es

-- Whether the timer at an address is among the entries.
abbrev pub is_among : (ℕ → Option Timer) → List Pair → ℕ → Bool
is_among heap es t = elim (heap t) [ none ↦ false | some timer ↦ contains (timer.expiration, t) es ]

-- What the loop leaves of the active set.
record Remains (heap : ℕ → Option Timer) (es active left : List Pair) : Type 0 where
  sorted : IsSorted left
  entries :
      (t number : ℕ)
      → (contains (t, number) active ≡ true → numbered (heap t) number ≡ true)
      → contains (t, number) left ≡ contains (t, number) active && not (is_among heap es t)
  fewer : length left + length es ≡ length active

-- The timers of different entries are different.
AreReady-erase :
    (heap : ℕ → Option Timer) (active : List Pair) (time t : ℕ) (timer : Timer) (es : List Pair)
    → IsSorted active
    → heap t ≡ some timer
    → timer.expiration ≡ time
    → AllAfter (time, t) es
    → AreReady heap active es
    → AreReady heap (erase (t, timer.sequence) active) es
AreReady-erase heap active time t timer [] s e f a r = tt
AreReady-erase heap active time t timer ((time', t') ∷ es) s e f (p, a) ((timer', e', f', c'), r) =
    ((timer', e', f', differs), AreReady-erase heap active time t timer es s e f a r)
  where
    differs : contains (t', timer'.sequence) (erase (t, timer.sequence) active) ≡ true
    differs = elim (Bool-cases (t' == t)) [
      | inl g ↦ absurd (ground (arith, ap heap ((==_iff t' t).0 g)))
      | inr g ↦ ground (arith, contains-erase (t', timer'.sequence) (t, timer.sequence) active s)
    ]

no_entries :
    (timer : Option Timer) (b : Bool) (t : ℕ)
    → b ≡ b && not (elim timer [ none ↦ false | some timer ↦ contains (timer.expiration, t) [] ])
unfolding contains
no_entries none b t = ground arith
no_entries (some timer) b t = ground arith

erase_active_lem :
    (es : List Pair) (q : TimerQueue)
    → IsSorted es
    → IsSorted q.active
    → AreReady q.heap q.active es
    → (left : List Pair) × (erase_active es q ≡ ok (record q { active = left }))
      × Remains q.heap es q.active left
unfolding erase_active contains
erase_active_lem [] q s sa r = (
  q.active,
  refl,
  record {
    sorted = sa;
    entries = λ t number h. no_entries (q.heap t) (contains (t, number) q.active) t;
    fewer = omega arith;
  },
)
erase_active_lem ((time, t) ∷ es) q (a, s) sa ((timer, e, f, c), r) =
    let shorter = erase (t, timer.sequence) q.active in
    let (left, g, m) =
      erase_active_lem es (record q { active = shorter }) s
        (erase-IsSorted (t, timer.sequence) q.active sa)
        (AreReady-erase q.heap q.active time t timer es sa e f a r) in
    (
      left,
      rw (e, c, g),
      record {
        sorted = m.sorted;
        entries = λ u number h. one_more left u number h (m.entries u number);
        fewer = omega (arith, m.fewer, length-erase (t, timer.sequence) q.active c);
      },
    )
  where
    one_more :
        (left : List Pair) (u number : ℕ)
        → (contains (u, number) q.active ≡ true → numbered (q.heap u) number ≡ true)
        → ((contains (u, number) (erase (t, timer.sequence) q.active) ≡ true
              → numbered (q.heap u) number ≡ true)
            → contains (u, number) left
              ≡ contains (u, number) (erase (t, timer.sequence) q.active)
                && not (is_among q.heap es u))
        → contains (u, number) left
          ≡ contains (u, number) q.active && not (is_among q.heap ((time, t) ∷ es) u)
    one_more left u number h k = elim (Bool-cases (u == t)) [
      | inl g ↦ ground (
        arith,
        contains-erase (u, number) (t, timer.sequence) q.active sa,
        ap q.heap ((==_iff u t).0 g),
      )
      | inr g ↦ elim (Option-cases (q.heap u)) [
        | inl n ↦ ground (arith, contains-erase (u, number) (t, timer.sequence) q.active sa)
        | inr (other, n) ↦
            ground (arith, contains-erase (u, number) (t, timer.sequence) q.active sa)
      ]
    ]

-- Whether a timer is due.
abbrev pub is_due : Option Timer → ℕ → Bool
is_due none now = false
is_due (some timer) now = leb timer.expiration now

all_later_lem :
    (now : ℕ) (right : List Pair)
    → ((time t : ℕ) → contains (time, t) right ≡ true → now < time)
    → all_later now right ≡ true
unfolding contains
all_later_lem now [] h = refl
all_later_lem now ((time, t) ∷ right) h = ground (arith, h time t)

AreReady-all :
    (heap : ℕ → Option Timer) (active es : List Pair)
    → ((time t : ℕ) → contains (time, t) es ≡ true → IsReady heap active (time, t))
    → AreReady heap active es
unfolding contains
AreReady-all heap active [] h = tt
AreReady-all heap active ((time, t) ∷ es) h = (
  h time t (ground arith),
  AreReady-all heap active es (λ time' t' g. h time' t' (ground (arith, g))),
)

get_expired-eq :
    (q : TimerQueue) (now : ℕ) (left : List Pair)
    → (length q.timers == length q.active) ≡ true
    → all_later now (split (sentry now) q.timers).1 ≡ true
    → erase_active
        (split (sentry now) q.timers).0
        (record q { timers = (split (sentry now) q.timers).1 })
      ≡ ok (record q { timers = (split (sentry now) q.timers).1; active = left })
    → (length (split (sentry now) q.timers).1 == length left) ≡ true
    → get_expired q now
      ≡ ok (
        (split (sentry now) q.timers).0,
        record q { timers = (split (sentry now) q.timers).1; active = left },
      )
unfolding get_expired
get_expired-eq q now left a b c d = rw (a, b, c, d)

module _ {q : TimerQueue} {queued : ℕ → Bool} (l : Linked q queued) (now : ℕ) where
  abbrev due : List Pair
  due = (split (sentry now) q.timers).0

  abbrev later : List Pair
  later = (split (sentry now) q.timers).1

  due_lem : (time t : ℕ) → contains (time, t) due ≡ contains (time, t) q.timers && leb time now
  due_lem time t = elim (Bool-cases (contains (time, t) q.timers)) [
    | inl h ↦ ground (
      arith,
      l.addresses t (timers_lem l time t h).3,
      contains-split (sentry now) (time, t) q.timers l.timers_sorted,
    )
    | inr h ↦ ground (arith, contains-split (sentry now) (time, t) q.timers l.timers_sorted)
  ]

  later_lem :
      (time t : ℕ) → contains (time, t) later ≡ contains (time, t) q.timers && not (leb time now)
  later_lem time t = elim (Bool-cases (contains (time, t) q.timers)) [
    | inl h ↦ ground (
      arith,
      l.addresses t (timers_lem l time t h).3,
      contains-split (sentry now) (time, t) q.timers l.timers_sorted,
    )
    | inr h ↦ ground (arith, contains-split (sentry now) (time, t) q.timers l.timers_sorted)
  ]

  due-AreReady : AreReady q.heap q.active due
  due-AreReady = AreReady-all q.heap q.active due (λ time t h.
      let (timer, e, f, on) = timers_lem l time t (ground (arith, due_lem time t)) in
      (timer, e, f, ground (arith, l.active_are t timer.sequence, e)))

  left_timers :
      (left : List Pair)
      → Remains q.heap due q.active left
      → Linked
          (record q { timers = later; active = left })
          (λ t. queued t && not (is_due (q.heap t) now))
  left_timers left m = record {
    timers_sorted = (split-IsSorted (sentry now) q.timers l.timers_sorted).1;
    active_sorted = m.sorted;
    timers_are = λ time t. elim (Option-cases (q.heap t)) [
      | inl n ↦ ground (arith, later_lem time t, l.timers_are time t)
      | inr (timer, e) ↦ ground (arith, later_lem time t, l.timers_are time t)
    ];
    active_are = λ t number. elim (Option-cases (q.heap t)) [
      | inl n ↦ ground (arith, m.entries t number, l.active_are t number)
      | inr (timer, e) ↦ ground (
        arith,
        m.entries t number,
        l.active_are t number,
        due_lem timer.expiration t,
        l.timers_are timer.expiration t,
      )
    ];
    sizes = omega (arith, m.fewer, split_lengths (sentry now) q.timers, l.sizes);
    addresses = λ t h. ground (arith, l.addresses t);
    alive = λ t h. ground (arith, l.alive t);
  }

  -- `getExpired` fails no assertion. It returns the entries that are due, in order, and leaves those that are
  -- not; the timers of the first are queued no longer, and the others are.
  pub get_expired_lem :
      (expired : List Pair) × (q' : TimerQueue) × (get_expired q now ≡ ok (expired, q'))
      × (expired ++ q'.timers ≡ q.timers)
      × ((time t : ℕ) → contains (time, t) expired ≡ contains (time, t) q.timers && leb time now)
      × IsSorted expired
      × (q'.heap ≡ q.heap)
      × Linked q' (λ t. queued t && not (is_due (q.heap t) now))
  get_expired_lem =
      let (left, e, m) =
        erase_active_lem due (record q { timers = later })
          (split-IsSorted (sentry now) q.timers l.timers_sorted).0 l.active_sorted due-AreReady in
      let l' = left_timers left m in
      let late = all_later_lem now later (λ time t h. ground (arith, later_lem time t)) in
      (
        due,
        record q { timers = later; active = left },
        get_expired-eq q now left (eq→== (length q.timers) (length q.active) l.sizes) late e
            (eq→== (length later) (length left) l'.sizes),
        split_append (sentry now) q.timers,
        due_lem,
        (split-IsSorted (sentry now) q.timers l.timers_sorted).0,
        refl,
        l',
      )
