-- ===== src/Acceptor/Descriptors.antt =====
-- Acceptor.cpp: no descriptor is lost.
use event_loop.Prelude.{
  ℕ, ◌+◌, ◌≡◌, refl, Bool, true, Option, none, some, List, ◌∷◌, ok, arith, ◌==◌, if◌then◌else◌,
  subst, sym, inl, inr, Bool-cases, Result-cases,
}
use event_loop.Channel.{disable_all, remove}
use event_loop.Connector.Sockets.{count}
use event_loop.SocketsOps.{Errno, Accepted, accepted, refused, descriptor, accept}
use event_loop.Acceptor.{
  Acceptor, listen, close_all, shed, give, handle_read, end_acceptor, is_emfile,
}

abbrev pub held : ℕ → Option ℕ → ℕ
held n none = 0
held n (some fd) = if n == fd then 1 else 0

-- Each number was opened as often as it was closed, passed on, or is the spare descriptor.
abbrev pub IsAccounted : Acceptor → Type 0
IsAccounted a = (n : ℕ) → count n a.opened ≡ count n a.closed + count n a.passed + held n a.idle_fd

count-close_all :
    (n : ℕ) (o : Option ℕ) (xs : List ℕ) → count n (close_all o xs) ≡ held n o + count n xs
count-close_all n none xs = omega arith
count-close_all n (some fd) xs = refl

shed-IsAccounted :
    (a : Acceptor) (second : Accepted) (reopened : Option ℕ)
    → IsAccounted a
    → IsAccounted (shed a second reopened)
unfolding shed
shed-IsAccounted a second reopened v n =
    let o = descriptor second in
    omega (
      arith,
      v n,
      count-close_all n o (close_all a.idle_fd a.closed),
      count-close_all n a.idle_fd a.closed,
      count-close_all n reopened (close_all o a.opened),
      count-close_all n o a.opened,
    )

give-IsAccounted : (a : Acceptor) (fd : ℕ) → IsAccounted a → IsAccounted (give a fd)
unfolding give
give-IsAccounted a fd v n = elim (Bool-cases a.has_callback) [
  | inl y ↦ rw y (omega (arith, v n))
  | inr y ↦ rw y (omega (arith, v n))
]

ended : (a : Acceptor) {b : Acceptor} → end_acceptor a ≡ ok b → IsAccounted a → IsAccounted b
unfolding end_acceptor
ended a {b} e v = elim (Result-cases (remove (disable_all a.channel))) [
  | inr (f, x) ↦ absurd (ground (arith, x, e))
  | inl (ch, x) ↦
      let c : Acceptor = record a {
        channel = ch;
        closed = close_all a.idle_fd a.closed;
        idle_fd = none;
      } in
      let same : c ≡ b = ground (arith, x, e) in
      subst IsAccounted same (λ n. omega (arith, v n, count-close_all n a.idle_fd a.closed))
]

module _ (fcntl : Option ℕ → Errno → Errno) (print : Errno → Errno) where
  -- What may happen to an acceptor.
  pub data Step (a b : Acceptor) : Type 0 where
    sets_callback : (w : Bool) → b ≡ record a { has_callback = w } → Step a b
    listens : b ≡ listen a → Step a b
    reads :
        (before : Errno) (first second : Accepted) (reopened : Option ℕ)
        → b ≡ handle_read fcntl print a before first second reopened
        → Step a b
    ends : end_acceptor a ≡ ok b → Step a b

  pub data Reach (a : Acceptor) : Acceptor → Type 0 where
    here : Reach a a
    next : {b c : Acceptor} → Reach a b → Step b c → Reach a c

  read-IsAccounted :
      (a : Acceptor) (before : Errno) (first second : Accepted) (reopened : Option ℕ)
      → IsAccounted a
      → IsAccounted (handle_read fcntl print a before first second reopened)
  unfolding handle_read accept
  read-IsAccounted a before (accepted fd) second reopened v = give-IsAccounted a fd v
  read-IsAccounted a before (refused e) second reopened v =
      elim (Bool-cases (is_emfile (accept fcntl print (refused e) before).1)) [
        | inl y ↦ rw y (shed-IsAccounted a second reopened v)
        | inr y ↦ rw y v
      ]

  pub Step-IsAccounted : {a b : Acceptor} → Step a b → IsAccounted a → IsAccounted b
  unfolding listen end_acceptor
  Step-IsAccounted (sets_callback w e) v = subst IsAccounted (sym e) v
  Step-IsAccounted (listens e) v = subst IsAccounted (sym e) v
  Step-IsAccounted (reads before first second reopened e) v =
      subst IsAccounted (sym e) (read-IsAccounted _ before first second reopened v)
  Step-IsAccounted {a} (ends e) v = ended a e v

  -- Whatever happens to an acceptor where this holds, such as a new one, whatever the kernel answers: it holds
  -- again. So no descriptor is lost or closed twice.
  pub Reach-IsAccounted : {a b : Acceptor} → Reach a b → IsAccounted a → IsAccounted b
  Reach-IsAccounted here v = v
  Reach-IsAccounted (next r s) v = Step-IsAccounted s (Reach-IsAccounted r v)

  -- What is passed on: a connection that was accepted, with a callback.
  pub refused-passes :
      (a : Acceptor) (before e : Errno) (second : Accepted) (reopened : Option ℕ)
      → ((handle_read fcntl print a before (refused e) second reopened).passed ≡ a.passed)
        × ((handle_read fcntl print a before (refused e) second reopened).has_callback
            ≡ a.has_callback)
  unfolding handle_read accept shed
  refused-passes a before e second reopened =
      elim (Bool-cases (is_emfile (accept fcntl print (refused e) before).1)) [
        | inl y ↦ rw y (refl, refl)
        | inr y ↦ rw y (refl, refl)
      ]

  pub accepted-passes :
      (a : Acceptor) (before : Errno) (fd : ℕ) (second : Accepted) (reopened : Option ℕ)
      → a.has_callback ≡ true
      → ((handle_read fcntl print a before (accepted fd) second reopened).passed ≡ fd ∷ a.passed)
        × ((handle_read fcntl print a before (accepted fd) second reopened).has_callback ≡ true)
  unfolding handle_read accept give
  accepted-passes a before fd second reopened y = rw y (refl, refl)
