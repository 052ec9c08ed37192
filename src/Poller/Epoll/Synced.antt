-- ===== src/Poller/Epoll/Synced.antt =====
-- EPollPoller.cpp: what the kernel watches is what the channels in the map want.
use event_loop.Prelude.{
  ℕ, ◌≡◌, ◌≢◌, refl, sym, ap, subst, ◌∙◌, ◌⊎◌, inl, inr, true, false, Option, none, some, ◌==◌,
  ==_iff, ==_self, if◌then◌else◌, Bool-cases, arith,
}
use event_loop.Channel
use event_loop.Channel.{Channel}
use event_loop.Poller.Store.{ChannelMap, put}
use event_loop.Poller.Epoll.{Epoll, Event, EpollPoller, event_of, added, deleted}

ne_of_test : (a b : ℕ) → (a == b) ≡ false → a ≢ b
ne_of_test a b h = ground arith

-- A channel in the map is watched for its events, or it is deleted in the kernel and wants none.
abbrev pub IsRegistered : Channel → ℕ → Option Event → Type 0
IsRegistered ch p w =
    ((ch.index ≡ some added) × (w ≡ some (event_of ch p)))
    ⊎ ((ch.index ≡ some deleted) × (w ≡ none) × (Channel.is_none_event ch ≡ true))

pub record Synced {k : Epoll} (q : EpollPoller k) : Type 0 where
  pub absent : (fd : ℕ) → q.channels fd ≡ none → k.watched q.set fd ≡ none
  pub present :
      (fd p : ℕ)
      → q.channels fd ≡ some p
      → ((q.store p).fd ≡ fd) × IsRegistered (q.store p) p (k.watched q.set fd)
  pub owned : (p i : ℕ) → (q.store p).index ≡ some i → q.channels (q.store p).fd ≡ some p

-- All channels are so but the one at an address, whose interest changed since it was updated; the map
-- holds it at its descriptor if at all.
pub record SyncedBut {k : Epoll} (q : EpollPoller k) (p : ℕ) : Type 0 where
  pub absent : (fd : ℕ) → q.channels fd ≡ none → k.watched q.set fd ≡ none
  pub present :
      (fd r : ℕ)
      → q.channels fd ≡ some r
      → (r == p) ≡ false
      → ((q.store r).fd ≡ fd) × IsRegistered (q.store r) r (k.watched q.set fd)
  pub mine : (fd : ℕ) → q.channels fd ≡ some p → (q.store p).fd ≡ fd
  pub owned :
      (r i : ℕ) → (r == p) ≡ false → (q.store r).index ≡ some i → q.channels (q.store r).fd ≡ some r

-- Changing a channel's interest, and nothing else that the poller reads, leaves the others as they are.
pub changed-SyncedBut :
    {k : Epoll} {q : EpollPoller k} (p : ℕ) (ch : Channel)
    → Synced q
    → ch.fd ≡ (q.store p).fd
    → SyncedBut (record q { store = put q.store p ch }) p
changed-SyncedBut {k} {q} p ch s same = record {
  absent = s.absent;
  present = λ fd r h n. rw n (s.present fd r h);
  mine = λ fd h. rw ==_self (same ∙ (s.present fd p h).0);
  owned =
      λ r i n h. rw n (s.owned r i (subst (λ b. (if b then ch else q.store r).index ≡ some i) n h));
}

module _ {k : Epoll} {q : EpollPoller k} (p : ℕ) (s : SyncedBut q p) where
  -- The channel at one address changes, and with it the entry of its descriptor and what is watched there.
  pub changed-Synced :
      (ch : Channel) (entry : Option ℕ) (w : Option Event) (channels : ChannelMap) (set : k.Watched)
      → ch.fd ≡ (q.store p).fd
      → (q.channels ch.fd ≡ none) ⊎ (q.channels ch.fd ≡ some p)
      → ((g : ℕ) → channels g ≡ (if g == ch.fd then entry else q.channels g))
      → ((g : ℕ) → k.watched set g ≡ (if g == ch.fd then w else k.watched q.set g))
      → ((entry ≡ none) × (w ≡ none) × (ch.index ≡ none)) ⊎ ((entry ≡ some p) × IsRegistered ch p w)
      → Synced (record q { store = put q.store p ch; channels = channels; set = set })
  changed-Synced ch entry w channels set same was cs ws now = record {
    absent = λ g h. elim (Bool-cases (g == ch.fd)) [
      | inl e ↦ gone g e h now
      | inr e ↦ rw (ws g, e) (s.absent g (kept g e ∙ h))
    ];
    present = λ g r h. elim (Bool-cases (g == ch.fd)) [
      | inl e ↦ entered g r e h now
      | inr e ↦
          let old : q.channels g ≡ some r = kept g e ∙ h in
          let (f, reg) = s.present g r old (differs g r e old) in
          rw (differs g r e old, ws g, e) (f, reg)
    ];
    owned = λ r i h. elim (Bool-cases (r == p)) [
      | inl e ↦ rw e (
          owner i (subst (λ b. (if b then ch else q.store r).index ≡ some i) e h) now
          ∙ ap some (sym ((==_iff r p).0 e)))
      | inr e ↦ rw e (other r i e (subst (λ b. (if b then ch else q.store r).index ≡ some i) e h))
    ];
  }
    where
      kept : (g : ℕ) → (g == ch.fd) ≡ false → q.channels g ≡ channels g
      kept g e = rw (cs g, e) refl

      differs : (g r : ℕ) → (g == ch.fd) ≡ false → q.channels g ≡ some r → (r == p) ≡ false
      differs g r e h = elim (Bool-cases (r == p)) [
        | inr n ↦ n
        | inl n ↦
            let here = s.mine g (h ∙ ap some ((==_iff r p).0 n)) in
            absurd (omega (arith, same, here, ne_of_test g ch.fd e))
      ]

      owner :
          (i : ℕ)
          → ch.index ≡ some i
          → ((entry ≡ none) × (w ≡ none) × (ch.index ≡ none))
            ⊎ ((entry ≡ some p) × IsRegistered ch p w)
          → channels ch.fd ≡ some p
      owner i h (inl (a, b, c)) = absurd (ground arith)
      owner i h (inr (a, b)) = cs ch.fd ∙ rw ==_self a

      clash :
          (r : ℕ)
          → (r == p) ≡ false
          → q.channels ch.fd ≡ some r
          → (q.channels ch.fd ≡ none) ⊎ (q.channels ch.fd ≡ some p)
          → ⊥
      clash r e h (inl a) = ground arith
      clash r e h (inr a) = ground arith

      other :
          (r i : ℕ)
          → (r == p) ≡ false
          → (q.store r).index ≡ some i
          → channels (q.store r).fd ≡ some r
      other r i e h = elim (Bool-cases ((q.store r).fd == ch.fd)) [
        | inl n ↦ absurd (
            clash r e (sym (ap q.channels ((==_iff (q.store r).fd ch.fd).0 n)) ∙ s.owned r i e h)
              was)
        | inr n ↦ sym (kept (q.store r).fd n) ∙ s.owned r i e h
      ]

      gone :
          (g : ℕ)
          → (g == ch.fd) ≡ true
          → channels g ≡ none
          → ((entry ≡ none) × (w ≡ none) × (ch.index ≡ none))
            ⊎ ((entry ≡ some p) × IsRegistered ch p w)
          → k.watched set g ≡ none
      gone g e h (inl (a, b, c)) = rw (ws g, e) b
      gone g e h (inr (a, b)) = absurd (ground (arith, cs g))

      entered :
          (g r : ℕ)
          → (g == ch.fd) ≡ true
          → channels g ≡ some r
          → ((entry ≡ none) × (w ≡ none) × (ch.index ≡ none))
            ⊎ ((entry ≡ some p) × IsRegistered ch p w)
          → ((put q.store p ch r).fd ≡ g) × IsRegistered (put q.store p ch r) r (k.watched set g)
      entered g r e h (inl (a, b, c)) = absurd (ground (arith, cs g))
      entered g r e h (inr (a, reg)) =
          let eq : p ≡ r = ground (arith, cs g) in
          subst
            (λ r.
              ((put q.store p ch r).fd ≡ g) × IsRegistered (put q.store p ch r) r (k.watched set g))
            eq (rw (==_self p, ws g, e) (sym ((==_iff g ch.fd).0 e), reg))
