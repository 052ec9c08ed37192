-- ===== src/TimerQueue/Reset.antt =====
-- TimerQueue.cpp: `handleRead` calls the timers that are due, and `reset` queues again those that repeat.
use event_loop.Prelude.{
  ℕ, ◌-◌, ◌^◌, ◌<◌, ◌≡◌, refl, sym, ap, ◌∙◌, Bool, true, false, not, ◌&&◌, ◌||◌, Option, none, some,
  List, [], ◌∷◌, ◌==◌, ==_self, Bool-cases, inl, inr, ok, arith,
}
use event_loop.OrderedPairs.{Pair, contains}
use event_loop.TimerQueue.{Timer, TimerQueue, store, restart, reset_one, reset_all}
use event_loop.TimerQueue.Linked.{Linked, is_alive, store-Linked, insert_live_lem, inserted}

-- The entries are of different timers, none of which has this address.
abbrev pub IsOther : ℕ → List Pair → Type 0
IsOther t [] = Unit {0}
IsOther t ((time, u) ∷ es) = ((t == u) ≡ false) × IsOther t es

abbrev pub AreDistinct : List Pair → Type 0
AreDistinct [] = Unit {0}
AreDistinct ((time, t) ∷ es) = IsOther t es × AreDistinct es

-- The timers of the entries live and are not queued.
abbrev pub AreIdle : (ℕ → Option Timer) → (ℕ → Bool) → List Pair → Type 0
AreIdle heap queued [] = Unit {0}
AreIdle heap queued ((time, t) ∷ es) =
    ((is_alive (heap t) ≡ true) × (queued t ≡ false) × (t < 2 ^ 64 - 1)) × AreIdle heap queued es

-- Whether `reset` queues a timer again.
abbrev pub is_again : TimerQueue → ℕ → Timer → Bool
is_again q t timer = timer.repeat && not (contains (t, timer.sequence) q.canceling)

-- A timer after `reset`: it is queued again, later by its interval, or freed.
abbrev pub Settled : ℕ → TimerQueue → (ℕ → Option Timer) → (ℕ → Bool) → ℕ → Type 0
Settled now q heap queued t =
    (timer : Timer) × (q.heap t ≡ some timer)
    × (is_again q t timer ≡ true → (heap t ≡ some (restart timer now)) × (queued t ≡ true))
    × (is_again q t timer ≡ false → (heap t ≡ none) × (queued t ≡ false))

abbrev pub AreSettled : ℕ → TimerQueue → (ℕ → Option Timer) → (ℕ → Bool) → List Pair → Type 0
AreSettled now q heap queued [] = Unit {0}
AreSettled now q heap queued ((time, t) ∷ es) =
    Settled now q heap queued t × AreSettled now q heap queued es

-- What the loop of `reset` does, from a queue whose canceled ids are given.
pub record Resets (now : ℕ) (q : TimerQueue) (queued : ℕ → Bool) (es : List Pair) : Type 0 where
  pub after : TimerQueue
  pub queued_after : ℕ → Bool
  pub returns : reset_all now es q ≡ ok after
  pub linked : Linked after queued_after
  pub settled : AreSettled now q after.heap queued_after es
  pub others : (u : ℕ) → IsOther u es → (after.heap u ≡ q.heap u) × (queued_after u ≡ queued u)

-- One round.
record Round (now : ℕ) (q : TimerQueue) (queued : ℕ → Bool) (t : ℕ) (timer : Timer) : Type 0 where
  after : TimerQueue
  queued_after : ℕ → Bool
  returns : reset_one now q t timer ≡ ok after
  linked : Linked after queued_after
  again :
      is_again q t timer ≡ true
      → (after.heap t ≡ some (restart timer now)) × (queued_after t ≡ true)
  gone : is_again q t timer ≡ false → (after.heap t ≡ none) × (queued_after t ≡ false)
  others : (u : ℕ) → (u == t) ≡ false → (after.heap u ≡ q.heap u) × (queued_after u ≡ queued u)
  same_canceling : after.canceling ≡ q.canceling

reset_one_lem :
    (now : ℕ) (q : TimerQueue) (queued : ℕ → Bool) (t : ℕ) (timer : Timer)
    → Linked q queued
    → queued t ≡ false
    → t < 2 ^ 64 - 1
    → Round now q queued t timer
unfolding reset_one
reset_one_lem now q queued t timer l idle small = elim (Bool-cases (is_again q t timer)) [
  | inl recurs ↦
      let l0 = store-Linked l t (some (restart timer now)) idle in
      let (e, l1) = insert_live_lem l0 t (restart timer now) (rw ==_self) idle small in
      record {
        after = inserted l0 t (restart timer now);
        queued_after = λ u. u == t || queued u;
        returns = rw (recurs, e);
        linked = l1;
        again = λ _. (rw ==_self, rw ==_self);
        gone = λ n. absurd (ground (arith, recurs));
        others = λ u n. (rw n, rw n);
        same_canceling = refl;
      }
  | inr ends ↦ record {
    after = record q { heap = store q.heap t none };
    queued_after = queued;
    returns = rw ends;
    linked = store-Linked l t none idle;
    again = λ n. absurd (ground (arith, ends));
    gone = λ _. (rw ==_self, idle);
    others = λ u n. (rw n, refl);
    same_canceling = refl;
  }
]

pub alive_lem : (v : Option Timer) → is_alive v ≡ true → (timer : Timer) × (v ≡ some timer)
alive_lem none h = cc
alive_lem (some timer) h = (timer, refl)

-- The round of one timer leaves the others idle.
AreIdle-others :
    (q q' : TimerQueue) (queued queued' : ℕ → Bool) (t : ℕ) (es : List Pair)
    → ((u : ℕ) → (u == t) ≡ false → (q'.heap u ≡ q.heap u) × (queued' u ≡ queued u))
    → IsOther t es
    → AreIdle q.heap queued es
    → AreIdle q'.heap queued' es
AreIdle-others q q' queued queued' t [] k o i = tt
AreIdle-others q q' queued queued' t ((time, u) ∷ es) k (n, o) ((a, b, c), i) =
    let (h, f) = k u (ground arith) in
    ((ap is_alive h ∙ a, f ∙ b, c), AreIdle-others q q' queued queued' t es k o i)

-- What holds after the round of one timer of the rest holds from before it.
AreSettled-others :
    (now : ℕ) (q r : TimerQueue) (heap : ℕ → Option Timer) (queued : ℕ → Bool) (t : ℕ)
    (es : List Pair)
    → ((u : ℕ) → (u == t) ≡ false → r.heap u ≡ q.heap u)
    → r.canceling ≡ q.canceling
    → IsOther t es
    → AreSettled now r heap queued es
    → AreSettled now q heap queued es
AreSettled-others now q r heap queued t [] k c o s = tt
AreSettled-others now q r heap queued t ((time, u) ∷ es) k c (n, o) ((timer, e, a, b), s) =
    let same : contains (u, timer.sequence) r.canceling ≡ contains (u, timer.sequence) q.canceling =
      ap (contains (u, timer.sequence)) c in
    (
      (
        timer,
        sym (k u (ground arith)) ∙ e,
        λ h. a (ground (arith, same, h)),
        λ h. b (ground (arith, same, h)),
      ),
      AreSettled-others now q r heap queued t es k c o s,
    )

pub reset_all-Resets :
    (now : ℕ) (q : TimerQueue) (queued : ℕ → Bool) (es : List Pair)
    → Linked q queued
    → AreDistinct es
    → AreIdle q.heap queued es
    → Resets now q queued es
unfolding reset_all
reset_all-Resets now q queued [] l d i = record {
  after = q;
  queued_after = queued;
  returns = refl;
  linked = l;
  settled = tt;
  others = λ u o. (refl, refl);
}
reset_all-Resets now q queued ((time, t) ∷ es) l (o, d) ((a, idle, small), i) =
    let (timer, e) = alive_lem (q.heap t) a in
    let r = reset_one_lem now q queued t timer l idle small in
    let rest =
      reset_all-Resets now r.after r.queued_after es r.linked d
        (AreIdle-others q r.after queued r.queued_after t es r.others o i) in
    let (kept, stays) = rest.others t o in
    record {
      after = rest.after;
      queued_after = rest.queued_after;
      returns = rw (e, r.returns, rest.returns);
      linked = rest.linked;
      settled = (
        (
          timer,
          e,
          λ h. (kept ∙ (r.again h).0, stays ∙ (r.again h).1),
          λ h. (kept ∙ (r.gone h).0, stays ∙ (r.gone h).1),
        ),
        AreSettled-others now q r.after rest.after.heap rest.queued_after t es
            (λ u n. (r.others u n).0) r.same_canceling o rest.settled,
      );
      others = λ u p.
          let (h, f) = rest.others u p.1 in let (h', f') = r.others u p.0 in (h ∙ h', f ∙ f');
    }
