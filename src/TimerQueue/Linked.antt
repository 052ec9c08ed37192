-- ===== src/TimerQueue/Linked.antt =====
-- TimerQueue.cpp: the two sets mirror each other.
use event_loop.Prelude.{
  ℕ, ◌-◌, ◌^◌, ◌<◌, ◌≡◌, refl, ap, subst, Bool, true, false, not, ◌&&◌, ◌||◌, Option, none, some,
  List, length, ◌==◌, ==_iff, Bool-cases, Option-cases, inl, inr, ok, arith,
}
use mathlib.Core.Path.{fun_ext}
use event_loop.OrderedPairs.{Pair, same, contains, insert, erase, IsSorted}
use event_loop.OrderedPairs.Laws.{
  contains-insert, contains-erase, insert-IsSorted, erase-IsSorted, length-insert, length-erase,
}
use event_loop.TimerQueue.{Timer, TimerQueue, store, earliest_changed, insert_live, cancel_found}

abbrev pub expires : Option Timer → ℕ → Bool
expires none time = false
expires (some timer) time = timer.expiration == time

abbrev pub numbered : Option Timer → ℕ → Bool
numbered none number = false
numbered (some timer) number = timer.sequence == number

abbrev pub is_alive : Option Timer → Bool
is_alive none = false
is_alive (some timer) = true

-- The queued timers are those in both sets, each with its time in one and its number in the other.
pub record Linked (q : TimerQueue) (queued : ℕ → Bool) : Type 0 where
  pub timers_sorted : IsSorted q.timers
  pub active_sorted : IsSorted q.active
  pub timers_are : (time t : ℕ) → contains (time, t) q.timers ≡ queued t && expires (q.heap t) time
  pub active_are :
      (t number : ℕ) → contains (t, number) q.active ≡ queued t && numbered (q.heap t) number
  pub sizes : length q.timers ≡ length q.active
  pub addresses : (t : ℕ) → queued t ≡ true → t < 2 ^ 64 - 1
  pub alive : (t : ℕ) → queued t ≡ true → is_alive (q.heap t) ≡ true

module _ {q : TimerQueue} {queued : ℕ → Bool} (l : Linked q queued) where
  -- The heap may change at an address that is not queued.
  pub store-Linked :
      (t : ℕ) (v : Option Timer)
      → queued t ≡ false
      → Linked (record q { heap = store q.heap t v }) queued
  store-Linked t v idle = record {
    timers_sorted = l.timers_sorted;
    active_sorted = l.active_sorted;
    timers_are = λ time u. elim (Bool-cases (u == t)) [
      | inl e ↦ ground (arith, l.timers_are time u, ap queued ((==_iff u t).0 e))
      | inr e ↦ rw e (l.timers_are time u)
    ];
    active_are = λ u number. elim (Bool-cases (u == t)) [
      | inl e ↦ ground (arith, l.active_are u number, ap queued ((==_iff u t).0 e))
      | inr e ↦ rw e (l.active_are u number)
    ];
    sizes = l.sizes;
    addresses = l.addresses;
    alive = λ u h. elim (Bool-cases (u == t)) [
      | inl e ↦ ground (arith, ap queued ((==_iff u t).0 e))
      | inr e ↦ rw e (l.alive u h)
    ];
  }

  -- The fields beside the heap and the two sets do not matter.
  pub other-Linked :
      (created : ℕ) (canceling : List Pair) (calling : Bool) (alarm : Option ℕ)
      → Linked
          (record q { created = created; canceling = canceling; calling = calling; alarm = alarm })
          queued
  other-Linked created canceling calling alarm = record {
    timers_sorted = l.timers_sorted;
    active_sorted = l.active_sorted;
    timers_are = l.timers_are;
    active_are = l.active_are;
    sizes = l.sizes;
    addresses = l.addresses;
    alive = l.alive;
  }

  -- Two functions that agree everywhere say the same of the queue.
  pub same-Linked : (f : ℕ → Bool) → ((t : ℕ) → queued t ≡ f t) → Linked q f
  same-Linked f e = subst (Linked q) (fun_ext e) l

  -- A timer that is not queued is in neither set.
  idle_lem :
      (t : ℕ) (timer : Timer)
      → queued t ≡ false
      → (contains (timer.expiration, t) q.timers ≡ false)
        × (contains (t, timer.sequence) q.active ≡ false)
  idle_lem t timer idle = (
    ground (arith, l.timers_are timer.expiration t),
    ground (arith, l.active_are t timer.sequence),
  )

  abbrev pub inserted : ℕ → Timer → TimerQueue
  inserted t timer = record q {
    timers = insert (timer.expiration, t) q.timers;
    active = insert (t, timer.sequence) q.active;
  }

  inserted-Linked :
      (t : ℕ) (timer : Timer)
      → q.heap t ≡ some timer
      → queued t ≡ false
      → t < 2 ^ 64 - 1
      → Linked (inserted t timer) (λ u. u == t || queued u)
  inserted-Linked t timer e idle small = record {
    timers_sorted = insert-IsSorted (timer.expiration, t) q.timers l.timers_sorted;
    active_sorted = insert-IsSorted (t, timer.sequence) q.active l.active_sorted;
    timers_are = λ time u. elim (Bool-cases (u == t)) [
      | inl g ↦ ground (
        arith,
        contains-insert (time, u) (timer.expiration, t) q.timers,
        l.timers_are time u,
        ap queued ((==_iff u t).0 g),
        ap q.heap ((==_iff u t).0 g),
        e,
        idle,
      )
      | inr g ↦
          ground
            (arith, contains-insert (time, u) (timer.expiration, t) q.timers, l.timers_are time u)
    ];
    active_are = λ u number. elim (Bool-cases (u == t)) [
      | inl g ↦ ground (
        arith,
        contains-insert (u, number) (t, timer.sequence) q.active,
        l.active_are u number,
        ap queued ((==_iff u t).0 g),
        ap q.heap ((==_iff u t).0 g),
        e,
        idle,
      )
      | inr g ↦
          ground
            (arith, contains-insert (u, number) (t, timer.sequence) q.active, l.active_are u number)
    ];
    sizes = omega (
      arith,
      l.sizes,
      length-insert (timer.expiration, t) q.timers (idle_lem t timer idle).0,
      length-insert (t, timer.sequence) q.active (idle_lem t timer idle).1,
    );
    addresses = λ u h. ground (arith, l.addresses u);
    alive = λ u h. elim (Bool-cases (u == t)) [
      | inl g ↦ ground (arith, ap q.heap ((==_iff u t).0 g), e)
      | inr g ↦ ground (arith, l.alive u)
    ];
  }

  -- `insert` of a live timer that is not queued fails no assertion.
  pub insert_live_lem :
      (t : ℕ) (timer : Timer)
      → q.heap t ≡ some timer
      → queued t ≡ false
      → t < 2 ^ 64 - 1
      → (insert_live q t timer ≡ ok (inserted t timer, earliest_changed q.timers timer.expiration))
        × Linked (inserted t timer) (λ u. u == t || queued u)
  unfolding insert_live
  insert_live_lem t timer e idle small =
      let l' = inserted-Linked t timer e idle small in
      (ground (arith, l.sizes, l'.sizes, idle_lem t timer idle), l')

  abbrev erased : ℕ → Timer → TimerQueue
  erased t timer = record q {
    timers = erase (timer.expiration, t) q.timers;
    heap = store q.heap t none;
    active = erase (t, timer.sequence) q.active;
  }

  erased-Linked :
      (t : ℕ) (timer : Timer)
      → q.heap t ≡ some timer
      → queued t ≡ true
      → Linked (erased t timer) (λ u. not (u == t) && queued u)
  erased-Linked t timer e on = record {
    timers_sorted = erase-IsSorted (timer.expiration, t) q.timers l.timers_sorted;
    active_sorted = erase-IsSorted (t, timer.sequence) q.active l.active_sorted;
    timers_are = λ time u. elim (Bool-cases (u == t)) [
      | inl g ↦ ground (
        arith,
        contains-erase (time, u) (timer.expiration, t) q.timers l.timers_sorted,
        l.timers_are time u,
        ap q.heap ((==_iff u t).0 g),
        e,
      )
      | inr g ↦ ground (
        arith,
        contains-erase (time, u) (timer.expiration, t) q.timers l.timers_sorted,
        l.timers_are time u,
      )
    ];
    active_are = λ u number. elim (Bool-cases (u == t)) [
      | inl g ↦ ground (
        arith,
        contains-erase (u, number) (t, timer.sequence) q.active l.active_sorted,
        l.active_are u number,
        ap q.heap ((==_iff u t).0 g),
        e,
      )
      | inr g ↦ ground (
        arith,
        contains-erase (u, number) (t, timer.sequence) q.active l.active_sorted,
        l.active_are u number,
      )
    ];
    sizes = omega (
      arith,
      l.sizes,
      length-erase (timer.expiration, t) q.timers
          (rw (l.timers_are timer.expiration t) (ground (arith, e, on))),
      length-erase (t, timer.sequence) q.active
          (rw (l.active_are t timer.sequence) (ground (arith, e, on))),
    );
    addresses = λ u h. ground (arith, l.addresses u);
    alive = λ u h. elim (Bool-cases (u == t)) [
      | inl g ↦ ground (arith, g)
      | inr g ↦ ground (arith, l.alive u)
    ];
  }

  -- An entry of the active set is a live timer that is queued.
  pub active_lem :
      (t number : ℕ)
      → contains (t, number) q.active ≡ true
      → (timer : Timer) × (q.heap t ≡ some timer) × (timer.sequence ≡ number) × (queued t ≡ true)
  active_lem t number h = elim (Option-cases (q.heap t)) [
    | inl e ↦ absurd (ground (arith, l.active_are t number))
    | inr (timer, e) ↦
        (timer, e, ground (arith, l.active_are t number), ground (arith, l.active_are t number))
  ]

  -- So is one of the timers.
  pub timers_lem :
      (time t : ℕ)
      → contains (time, t) q.timers ≡ true
      → (timer : Timer) × (q.heap t ≡ some timer) × (timer.expiration ≡ time) × (queued t ≡ true)
  timers_lem time t h = elim (Option-cases (q.heap t)) [
    | inl e ↦ absurd (ground (arith, l.timers_are time t))
    | inr (timer, e) ↦
        (timer, e, ground (arith, l.timers_are time t), ground (arith, l.timers_are time t))
  ]

  -- A freed address is not queued.
  pub free_lem : (t : ℕ) → q.heap t ≡ none → queued t ≡ false
  free_lem t e = elim (Bool-cases (queued t)) [
    | inl h ↦ absurd (ground (arith, l.alive t))
    | inr h ↦ h
  ]

  pub cancel_found_lem :
      (t number : ℕ)
      → contains (t, number) q.active ≡ true
      → (q' : TimerQueue) × (cancel_found q t number ≡ ok q')
        × Linked q' (λ u. not (u == t) && queued u)
        × (q'.heap t ≡ none)
        × ((u : ℕ) → queued u ≡ false → q'.heap u ≡ q.heap u)
  unfolding cancel_found
  cancel_found_lem t number h =
      let (timer, e, same, on) = active_lem t number h in
      let listed : contains (timer.expiration, t) q.timers ≡ true =
        rw (l.timers_are timer.expiration t) (ground (arith, e, on)) in
      (
        erased t timer,
        rw (e, listed, same),
        erased-Linked t timer e on,
        ground arith,
        λ u off. elim (Bool-cases (u == t)) [
          | inl g ↦ absurd (ground (arith, ap queued ((==_iff u t).0 g), on))
          | inr g ↦ rw g refl
        ],
      )
