-- ===== src/Poller/PollPoller/Active.antt =====
-- PollPoller.cpp: the channels that poll(2) found active.
use event_loop.Prelude.{
  ℕ, zero, suc, ◌-◌, ◌≡◌, refl, sym, ap, ap₂, subst, ◌∙◌, ◌⊎◌, inl, inr, true, false, some, List,
  [], ◌∷◌, map, length, get_elem?, ◌==◌, ==_iff, ==_self, if◌then◌else◌, Bool-cases, ok, ◌>>=◌, ℤ,
  pos, negsuc, arith,
}
use event_loop.Channel.{is_none_event}
use event_loop.Poller.PollPoller.{PollFd, PollPoller, fd_of, channel_of, fill_active_channels, poll}
use event_loop.Poller.PollPoller.Indexed.{Indexed, never}

-- What poll(2) leaves alone, and that it reports nothing of an entry with a negative descriptor.
abbrev pub IsSilent : ℤ → ℕ → Type 0
IsSilent (pos fd) revents = Unit {0}
IsSilent (negsuc fd) revents = revents ≡ 0

abbrev pub Answers : List PollFd → List PollFd → Type 0
Answers [] [] = Unit {0}
Answers [] (f ∷ fs) = ⊥
Answers (e ∷ es) [] = ⊥
Answers (e ∷ es) (f ∷ fs) =
    (f.fd ≡ e.fd) × (f.events ≡ e.events) × IsSilent f.fd f.revents × Answers es fs

-- The descriptors with events, in order.
pub busy : List PollFd → List ℕ
busy [] = []
busy (e ∷ es) = let rest = busy es in if e.revents == 0 then rest else fd_of e.fd ∷ rest

-- An entry of the answer is that of the array, but for its events.
answer-entry :
    (es fs : List PollFd) (i : ℕ) (f : PollFd)
    → Answers es fs
    → get_elem? fs i ≡ some f
    → (e : PollFd) × (get_elem? es i ≡ some e) × (f.fd ≡ e.fd) × (f.events ≡ e.events)
answer-entry [] [] i f a h = absurd (ground arith)
answer-entry [] (g ∷ fs) i f a h = absurd a
answer-entry (e ∷ es) [] i f a h = absurd a
answer-entry (e ∷ es) (g ∷ fs) zero f (x, y, z, a) h = (e, refl, ground arith, ground arith)
answer-entry (e ∷ es) (g ∷ fs) (suc i) f (x, y, z, a) h = answer-entry es fs i f a h

entry-answer :
    (es fs : List PollFd) (i : ℕ) (e : PollFd)
    → Answers es fs
    → get_elem? es i ≡ some e
    → (f : PollFd) × (get_elem? fs i ≡ some f) × (f.fd ≡ e.fd) × (f.events ≡ e.events)
entry-answer [] [] i e a h = absurd (ground arith)
entry-answer [] (g ∷ fs) i e a h = absurd a
entry-answer (d ∷ es) [] i e a h = absurd a
entry-answer (d ∷ es) (g ∷ fs) zero e (x, y, z, a) h = (g, refl, ground arith, ground arith)
entry-answer (d ∷ es) (g ∷ fs) (suc i) e (x, y, z, a) h = entry-answer es fs i e a h

nil_of_length : (xs : List ℕ) → length xs ≡ 0 → xs ≡ []
nil_of_length [] e = refl
nil_of_length (x ∷ xs) e = absurd (omega (arith, e))

module _ (q : PollPoller) (fs : List PollFd) where
  abbrev pub answered : PollPoller
  answered = record q { pollfds = fs }

  answered-Indexed : Indexed never q → Answers q.pollfds fs → Indexed never answered
  answered-Indexed v a = record {
    present = λ fd p h.
        let (here, w) = v.present fd p h in
        let (f, s, x, y) = entry-answer q.pollfds fs w.place w.entry a w.slot in
        (
          here,
          record {
            place = w.place;
            entry = f;
            index_is = w.index_is;
            slot = s;
            matches = (
              ap fd_of x ∙ w.matches.0,
              λ z. (
                y ∙ (w.matches.1 z).0,
                subst
                    (λ t.
                      (t ≡ pos (q.store p).fd)
                      ⊎ ((t ≡ negsuc (q.store p).fd) × (is_none_event (q.store p) ≡ true)))
                    (sym x) (w.matches.1 z).1,
              ),
            );
          },
        );
    listed = λ i f h.
        let (e, s, x, y) = answer-entry q.pollfds fs i f a h in
        let (p, c, n) = v.listed i e s in (p, ap (λ t. q.channels (fd_of t)) x ∙ c, n);
  }

  -- The channel of an entry with events.
  channel_of_lem :
      (z : ℤ) (p r : ℕ)
      → IsSilent z (suc r)
      → q.channels (fd_of z) ≡ some p
      → (q.store p).fd ≡ fd_of z
      → channel_of answered z ≡ ok p
  unfolding channel_of
  channel_of_lem (pos n) p r s c f = rw (channel_of, c, f, ==_self n) refl
  channel_of_lem (negsuc n) p r s c f = absurd (ground arith)

  abbrev Found : List PollFd → Type 0
  Found [] = Unit {0}
  Found (g ∷ gs) =
      IsSilent g.fd g.revents
      × ((p : ℕ) × (q.channels (fd_of g.fd) ≡ some p) × ((q.store p).fd ≡ fd_of g.fd))
      × Found gs

  found :
      (es gs : List PollFd)
      → Answers es gs
      → ((i : ℕ) (g : PollFd)
          → get_elem? gs i ≡ some g
          → (p : ℕ) × (q.channels (fd_of g.fd) ≡ some p) × ((q.store p).fd ≡ fd_of g.fd))
      → Found gs
  found [] [] a h = tt
  found [] (g ∷ gs) a h = absurd a
  found (e ∷ es) [] a h = tt
  found (e ∷ es) (g ∷ gs) (x, y, z, a) h = (z, h zero g refl, found es gs a (λ i k. h (suc i) k))

  fill_lem :
      (gs : List PollFd)
      → Found gs
      → (ps : List ℕ) × (fill_active_channels answered gs (length (busy gs)) ≡ ok ps)
        × (map q.channels (busy gs) ≡ map some ps)
  unfolding fill_active_channels busy
  fill_lem [] u = ([], refl, refl)
  fill_lem (g ∷ gs) (z, (p, c, f), u) =
      let (ps, e, m) = fill_lem gs u in
      elim (Bool-cases (g.revents == 0)) [
        | inl k ↦ elim (Bool-cases (length (busy gs) == 0)) [
          | inl n ↦
              let none_left : busy gs ≡ [] =
                nil_of_length (busy gs) ((==_iff (length (busy gs)) 0).0 n) in
              ([], rw (fill_active_channels, k, n) refl, rw k (ap (map q.channels) none_left))
          | inr n ↦ (ps, rw (fill_active_channels, k, n) e, rw k m)
        ]
        | inr k ↦
            let silent : IsSilent g.fd (suc (g.revents - 1)) =
              subst (IsSilent g.fd) (ground (arith, k)) z in
            let here = channel_of_lem g.fd p (g.revents - 1) silent c f in
            let more : (suc (length (busy gs)) == 0) ≡ false = ground arith in
            let one_less : suc (length (busy gs)) - 1 ≡ length (busy gs) = omega arith in
            (
              p ∷ ps,
              rw (fill_active_channels, k, more, here, one_less)
                  (ap (λ r. r >>= (λ qs. ok (p ∷ qs))) e),
              rw k (ap₂ (λ x xs. x ∷ xs) c m),
            )
      ]

  -- In a poller where the array and the map agree, where poll(2) changes no more than the events that are
  -- reported, reports none for an ignored entry, and returns the number of entries that have some: poll
  -- fails no assertion. It returns the channels of the descriptors that have events, in
  -- the order of the array, and the array and the map still agree. No channel is changed, so that none
  -- learns of its events.
  pub poll-busy :
      Indexed never q
      → Answers q.pollfds fs
      → (ps : List ℕ) × (poll q fs (length (busy fs)) ≡ ok (answered, ps))
        × (map q.channels (busy fs) ≡ map some ps)
        × Indexed never answered
  unfolding poll
  poll-busy v a =
      let w = answered-Indexed v a in
      let (ps, e, m) = fill_lem fs (
        found q.pollfds fs a
          (λ i g h. let (p, c, n) = w.listed i g h in (p, c, (w.present (fd_of g.fd) p c).0))) in
      (ps, rw e refl, m, w)
