-- ===== src/Poller/Epoll/Active.antt =====
-- EPollPoller.cpp: the events that the kernel reports.
use event_loop.Prelude.{
  ℕ, ◌*◌, ◌≤◌, ◌<◌, ◌≡◌, refl, sym, ap, subst, ◌∙◌, true, some, List, [], ◌∷◌, length, map, leb,
  le→leb, ◌==◌, ==_iff, ==_self, if◌then◌else◌, Bool-cases, Option-cases, ok, inl, inr, arith,
}
use event_loop.Channel
use event_loop.Channel.{Channel}
use event_loop.Poller.Store.{put}
use event_loop.Poller.Epoll.{
  Epoll, Event, EpollPoller, fill_one, fill_all, fill_active_channels, poll,
}
use event_loop.Poller.Epoll.Synced.{Synced, IsRegistered}

-- The event is of a descriptor that the kernel watches: its data is what was registered for it.
abbrev pub IsReported : (k : Epoll) → k.Watched → Event → Type 0
IsReported k set e = (fd : ℕ) × (d : Event) × (k.watched set fd ≡ some d) × (d.ptr ≡ e.ptr)

abbrev pub AreReported : (k : Epoll) → k.Watched → List Event → Type 0
AreReported k set [] = Unit {0}
AreReported k set (e ∷ es) = IsReported k set e × AreReported k set es

-- The note of the last event of a channel is in its `revents`.
abbrev pub revents_after : List Event → ℕ → ℕ → ℕ
revents_after [] p r = r
revents_after (e ∷ es) p r = revents_after es p (if p == e.ptr then e.events else r)

module _ {k : Epoll} where
  abbrev noted : EpollPoller k → Event → EpollPoller k
  noted q e = record q { store = put q.store e.ptr (record (q.store e.ptr) { revents = e.events }) }

  -- A reported event is of the channel that the map has.
  reported_lem :
      (q : EpollPoller k) (e : Event)
      → Synced q
      → IsReported k q.set e
      → q.channels (q.store e.ptr).fd ≡ some e.ptr
  reported_lem q e s (fd, d, w, p) = elim (Option-cases (q.channels fd)) [
    | inl n ↦ absurd (ground (arith, s.absent fd n))
    | inr (r, h) ↦
        let (f, reg) = s.present fd r h in
        let same : r ≡ e.ptr = pointer r reg in
        subst (λ x. q.channels (q.store x).fd ≡ some x) same (ap q.channels f ∙ h)
  ]
    where
      pointer : (r : ℕ) → IsRegistered (q.store r) r (k.watched q.set fd) → r ≡ e.ptr
      pointer r (inl (i, g)) = ground (arith, w, g, p)
      pointer r (inr (i, g, n)) = absurd (ground (arith, w, g))

  -- A channel in the store after the note, but for `revents`.
  noted_lem :
      (q : EpollPoller k) (e : Event) (r : ℕ)
      → (x : ℕ) × ((noted q e).store r ≡ record (q.store r) { revents = x })
  noted_lem q e r = elim (Bool-cases (r == e.ptr)) [
    | inl h ↦ (
      e.events,
      rw h (ap (λ p. record (q.store p) { revents = e.events }) (sym ((==_iff r e.ptr).0 h))),
    )
    | inr h ↦ ((q.store r).revents, rw h refl)
  ]

  noted-Synced : (q : EpollPoller k) (e : Event) → Synced q → Synced (noted q e)
  unfolding Channel.mask Channel.is_none_event
  noted-Synced q e s = record {
    absent = s.absent;
    present = λ fd r h.
        let (x, v) = noted_lem q e r in
        subst (λ ch. (ch.fd ≡ fd) × IsRegistered ch r (k.watched q.set fd)) (sym v)
          (s.present fd r h);
    owned = λ r i h.
        let (x, v) = noted_lem q e r in
        subst (λ (ch : Channel). ch.index ≡ some i → q.channels ch.fd ≡ some r) (sym v)
          (s.owned r i) h;
  }

  fill_all_lem :
      (q : EpollPoller k) (es : List Event)
      → Synced q
      → AreReported k q.set es
      → (q' : EpollPoller k) × (fill_all q es ≡ ok (q', map (λ (e : Event). e.ptr) es))
        × Synced q'
        × (q'.capacity ≡ q.capacity)
        × ((p : ℕ) → (q'.store p).revents ≡ revents_after es p (q.store p).revents)
  unfolding fill_all fill_one Channel.set_revents
  fill_all_lem q [] s r = (q, refl, s, refl, λ p. refl)
  fill_all_lem q (e ∷ es) s (r, rs) =
      let (q', g, s', c, h) = fill_all_lem (noted q e) es (noted-Synced q e s) rs in
      (
        q',
        rw (reported_lem q e s r, ==_self e.ptr, g) refl,
        s',
        c,
        λ p. h p ∙ ap (revents_after es p) (first p),
      )
    where
      first :
          (p : ℕ)
          → ((noted q e).store p).revents ≡ (if p == e.ptr then e.events else (q.store p).revents)
      first p = elim (Bool-cases (p == e.ptr)) [ inl h ↦ rw h refl | inr h ↦ rw h refl ]

  resized-Synced : (q : EpollPoller k) (n : ℕ) → Synced q → Synced (record q { capacity = n })
  resized-Synced q n s = record { absent = s.absent; present = s.present; owned = s.owned }

  poll-eq :
      (q : EpollPoller k) {q' : EpollPoller k} {ps : List ℕ} (e : Event) (es : List Event)
      → leb (length (e ∷ es)) q.capacity ≡ true
      → fill_all q (e ∷ es) ≡ ok (q', ps)
      → poll q (e ∷ es)
        ≡ ok (
          if length (e ∷ es) == q'.capacity then record q' { capacity = q'.capacity * 2 } else q',
          ps,
        )
  unfolding poll fill_active_channels
  poll-eq q e es small h = rw (small, h)

  -- Where the kernel reports no more events than the array has room for, each of a descriptor that it
  -- watches, `poll` fails no assertion. It returns the channels that were registered for
  -- them, in order, each with its last event noted; the poller stays in step with the kernel; and the
  -- array is doubled if it was full.
  pub poll_lem :
      (q : EpollPoller k) (es : List Event)
      → Synced q
      → AreReported k q.set es
      → length es ≤ q.capacity
      → 0 < q.capacity
      → (q' : EpollPoller k) × (poll q es ≡ ok (q', map (λ (e : Event). e.ptr) es))
        × Synced q'
        × ((p : ℕ) → (q'.store p).revents ≡ revents_after es p (q.store p).revents)
        × (q'.capacity ≡ (if length es == q.capacity then q.capacity * 2 else q.capacity))
  unfolding poll
  poll_lem q [] s r small pos = (q, refl, s, (λ p. refl), ground arith)
  poll_lem q (e ∷ es) s r small pos =
      let (q', g, s', c, h) = fill_all_lem q (e ∷ es) s r in
      let eq = poll-eq q e es (le→leb _ _ small) g in
      elim (Bool-cases (length (e ∷ es) == q'.capacity)) [
        | inl f ↦ (
          record q' { capacity = q'.capacity * 2 },
          eq ∙ rw f refl,
          resized-Synced q' _ s',
          h,
          ground (arith, c, f),
        )
        | inr f ↦ (q', eq ∙ rw f refl, s', h, ground (arith, c, f))
      ]
