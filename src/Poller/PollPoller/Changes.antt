-- ===== src/Poller/PollPoller/Changes.antt =====
-- PollPoller.cpp: updating a channel.
use event_loop.Prelude.{
  ℕ, ◌≡◌, ◌≢◌, refl, sym, ap, subst, ◌∙◌, ◌⊎◌, inl, inr, Bool, true, false, ◌||◌, none, some, [],
  ◌∷◌, ◌++◌, length, get_elem?, set, lt→ltb, ◌==◌, ==_iff, ==_self, if◌then◌else◌, Bool-cases, ok,
  ℤ, pos, negsuc, arith,
}
use event_loop.Channel
use event_loop.Channel.{Channel}
use event_loop.Poller.Store.{put}
use event_loop.Poller.PollPoller.{
  PollFd, PollPoller, is_fd, is_ignored, entry_of, set_index, add, modify, update_channel, fd_of,
}
use event_loop.Poller.PollPoller.Slots.{get_elem?-snoc, get_elem?-set, get_elem?-lt}
use event_loop.Poller.PollPoller.Indexed.{Matches, EntryOf, Indexed, never, only}

-- A poller after an update of a channel: the map leads to it, and the other entries stayed.
pub record Updated (q : PollPoller) (p : ℕ) (q' : PollPoller) : Type 0 where
  pub indexed : Indexed never q'
  pub found : q'.channels (q.store p).fd ≡ some p
  pub others :
      (j : ℕ) → (q'.store p).index ≢ some j → get_elem? q'.pollfds j ≡ get_elem? q.pollfds j

module _ (q : PollPoller) (p : ℕ) (v : Indexed (only p) q) where
  abbrev ch : Channel
  ch = q.store p

  abbrev added : PollPoller
  added = record q {
    pollfds = q.pollfds ++ entry_of ch ∷ [];
    store = set_index q.store p (length q.pollfds);
    channels = put q.channels ch.fd (some p);
  }

  -- A channel of another descriptor is another channel.
  differs : (fd r : ℕ) → q.channels fd ≡ some r → (fd == ch.fd) ≡ false → (r == p) ≡ false
  differs fd r h k = elim (Bool-cases (r == p)) [
    | inr n ↦ n
    | inl n ↦
        let here : (q.store r).fd ≡ fd = (v.present fd r h).0 in
        let same : (q.store r).fd ≡ ch.fd = ap (λ x. (q.store x).fd) ((==_iff r p).0 n) in
        absurd (ground arith)
  ]

  added-entry :
      EntryOf false (Channel.set_index ch (some (length q.pollfds))) (q.pollfds ++ entry_of ch ∷ [])
  unfolding Channel.set_index Channel.mask Channel.is_none_event
  added-entry = record {
    place = length q.pollfds;
    entry = entry_of ch;
    index_is = refl;
    slot = get_elem?-snoc q.pollfds (entry_of ch) (length q.pollfds) ∙ rw ==_self refl;
    matches = (refl, λ s. (refl, inl refl));
  }

  -- The entry of a channel stays where it is, if that is below the end.
  kept-EntryOf :
      (s : Bool) (d : Channel)
      → EntryOf s d q.pollfds
      → s ≡ false
      → EntryOf false d (q.pollfds ++ entry_of ch ∷ [])
  kept-EntryOf s d w e =
      let less = get_elem?-lt q.pollfds w.place w.entry w.slot in
      record {
        place = w.place;
        entry = w.entry;
        index_is = w.index_is;
        slot = ground (arith, get_elem?-snoc q.pollfds (entry_of ch) w.place, w.slot, less);
        matches = (w.matches.0, λ z. w.matches.1 e);
      }

  added-present :
      (fd r : ℕ)
      → added.channels fd ≡ some r
      → ((added.store r).fd ≡ fd) × EntryOf false (added.store r) added.pollfds
  unfolding Channel.set_index
  added-present fd r h = elim (Bool-cases (fd == ch.fd)) [
    | inl k ↦
        let same : p ≡ r = ground arith in
        subst (λ r. ((added.store r).fd ≡ fd) × EntryOf false (added.store r) added.pollfds) same
          (rw (==_self p) (sym ((==_iff fd ch.fd).0 k), added-entry))
    | inr k ↦
        let old : q.channels fd ≡ some r = ground arith in
        let other = differs fd r old k in
        let (here, w) = v.present fd r old in
        rw other (here, kept-EntryOf (only p r) (q.store r) w other)
  ]

  added-listed :
      q.channels ch.fd ≡ none
      → (i : ℕ) (e : PollFd) → get_elem? added.pollfds i ≡ some e
      → (r : ℕ) × (added.channels (fd_of e.fd) ≡ some r) × ((added.store r).index ≡ some i)
  unfolding Channel.set_index
  added-listed free i e h = elim (Bool-cases (i == length q.pollfds)) [
    | inl k ↦
        let here : entry_of ch ≡ e = ground (arith, get_elem?-snoc q.pollfds (entry_of ch) i) in
        (
          p,
          ap (λ x. put q.channels ch.fd (some p) (fd_of x.fd)) (sym here) ∙ rw ==_self refl,
          rw (==_self p) (ground arith),
        )
    | inr k ↦
        let old : get_elem? q.pollfds i ≡ some e =
          ground (arith, get_elem?-snoc q.pollfds (entry_of ch) i) in
        let (r, c, n) = v.listed i e old in
        let away : (fd_of e.fd == ch.fd) ≡ false = elim (Bool-cases (fd_of e.fd == ch.fd)) [
          | inl z ↦
              let taken = sym c ∙ (ap q.channels ((==_iff (fd_of e.fd) ch.fd).0 z) ∙ free) in
              absurd (ground arith)
          | inr z ↦ z
        ] in
        (r, rw away c, rw (differs (fd_of e.fd) r c away) n)
  ]

  added-Updated : q.channels ch.fd ≡ none → Updated q p added
  unfolding Channel.set_index
  added-Updated free = record {
    indexed = record { present = added-present; listed = added-listed free };
    found = rw ==_self refl;
    others = λ j n.
        let away : (j == length q.pollfds) ≡ false = elim (Bool-cases (j == length q.pollfds)) [
          | inl z ↦ absurd (n (rw (==_self p) (ap some (sym ((==_iff j (length q.pollfds)).0 z)))))
          | inr z ↦ z
        ] in
        get_elem?-snoc q.pollfds (entry_of ch) j ∙ rw away refl;
  }

  -- The new entry of a channel that is in the array.
  abbrev renewed : PollFd
  renewed = record (entry_of ch) {
    fd = if Channel.is_none_event ch then negsuc ch.fd else pos ch.fd;
  }

  abbrev modified : ℕ → PollPoller
  modified i = record q { pollfds = set q.pollfds i renewed }

  renewed-IsWatchedFor : Matches false ch renewed
  renewed-IsWatchedFor = elim (Bool-cases (Channel.is_none_event ch)) [
    | inl e ↦ rw e (refl, λ s. (refl, inr (refl, refl)))
    | inr e ↦ rw e (refl, λ s. (refl, inl refl))
  ]

  module _ (i : ℕ) (e : PollFd) (c : q.channels ch.fd ≡ some p) (n : ch.index ≡ some i)
      (g : get_elem? q.pollfds i ≡ some e) (same : fd_of e.fd ≡ ch.fd) where
    at_slot : get_elem? (modified i).pollfds i ≡ some renewed
    at_slot = get_elem?-set q.pollfds i renewed i (get_elem?-lt q.pollfds i e g) ∙ rw ==_self refl

    other_slot :
        (j : ℕ) → (j == i) ≡ false → get_elem? (modified i).pollfds j ≡ get_elem? q.pollfds j
    other_slot j k = get_elem?-set q.pollfds i renewed j (get_elem?-lt q.pollfds i e g) ∙ rw k refl

    -- Another channel has another place.
    elsewhere :
        (fd r : ℕ) (w : EntryOf (only p r) (q.store r) q.pollfds)
        → q.channels fd ≡ some r
        → (q.store r).fd ≡ fd
        → (r == p) ≡ false
        → (w.place == i) ≡ false
    elsewhere fd r w d here k = elim (Bool-cases (w.place == i)) [
      | inr z ↦ z
      | inl z ↦
          let shared : w.entry ≡ e =
            ground (arith, w.slot, g, ap (get_elem? q.pollfds) ((==_iff w.place i).0 z)) in
          let fds : fd ≡ ch.fd =
            sym here ∙ (sym w.matches.0 ∙ (ap (λ x. fd_of x.fd) shared ∙ same)) in
          let both : some r ≡ some p = sym d ∙ (ap q.channels fds ∙ c) in absurd (ground arith)
    ]

    modified-present :
        (fd r : ℕ)
        → q.channels fd ≡ some r
        → ((q.store r).fd ≡ fd) × EntryOf false (q.store r) (modified i).pollfds
    modified-present fd r d = elim (Bool-cases (r == p)) [
      | inl k ↦
          let eq : p ≡ r = sym ((==_iff r p).0 k) in
          (
            (v.present fd r d).0,
            subst (λ r. EntryOf false (q.store r) (modified i).pollfds) eq
                (record {
                  place = i;
                  entry = renewed;
                  index_is = n;
                  slot = at_slot;
                  matches = renewed-IsWatchedFor;
                }),
          )
      | inr k ↦
          let (here, w) = v.present fd r d in
          (
            here,
            record {
              place = w.place;
              entry = w.entry;
              index_is = w.index_is;
              slot = other_slot w.place (elsewhere fd r w d here k) ∙ w.slot;
              matches = (w.matches.0, λ z. w.matches.1 k);
            },
          )
    ]

    modified-listed :
        (j : ℕ) (x : PollFd)
        → get_elem? (modified i).pollfds j ≡ some x
        → (r : ℕ) × (q.channels (fd_of x.fd) ≡ some r) × ((q.store r).index ≡ some j)
    modified-listed j x h = elim (Bool-cases (j == i)) [
      | inl k ↦
          let eq : i ≡ j = sym ((==_iff j i).0 k) in
          let mine : renewed ≡ x =
            ground (arith, h, at_slot, ap (get_elem? (modified i).pollfds) eq) in
          (
            p,
            subst (λ y. q.channels (fd_of y.fd) ≡ some p) mine
                (ap q.channels renewed-IsWatchedFor.0 ∙ c),
            n ∙ ap some eq,
          )
      | inr k ↦ v.listed j x (sym (other_slot j k) ∙ h)
    ]

    modified-Updated : Updated q p (modified i)
    modified-Updated = record {
      indexed = record { present = modified-present; listed = modified-listed };
      found = c;
      others = λ j m. other_slot j (elim (Bool-cases (j == i)) [
        | inl z ↦ absurd (m (n ∙ ap some (sym ((==_iff j i).0 z))))
        | inr z ↦ z
      ]);
    }

  -- The test of an entry's descriptor.
  is_fd-fd_of : (z : ℤ) (fd : ℕ) → fd_of z ≡ fd → (is_fd z fd || is_ignored z fd) ≡ true
  is_fd-fd_of (pos n) fd h = ground arith
  is_fd-fd_of (negsuc n) fd h = ground arith

  -- In a poller where the array and the map agree, but for one channel whose interest changed: if that channel
  -- is new and its descriptor free, or it is in the map, updateChannel fails no assertion. The map
  -- leads to the channel, the array agrees with the map for all channels, and the entries of the
  -- others are where and what they were.
  pub update_channel-Updated :
      (((ch.index ≡ none) × (q.channels ch.fd ≡ none)) ⊎ (q.channels ch.fd ≡ some p))
      → (q' : PollPoller) × (update_channel q p ≡ ok q') × Updated q p q'
  unfolding update_channel add modify
  update_channel-Updated (inl (n, free)) =
      (added, rw (update_channel, n, free) refl, added-Updated free)
  update_channel-Updated (inr c) =
      let (here, w) = v.present ch.fd p c in
      let less = lt→ltb _ _ (get_elem?-lt q.pollfds w.place w.entry w.slot) in
      (
        modified w.place,
        rw
            (
              update_channel,
              w.index_is,
              c,
              ==_self p,
              less,
              w.slot,
              is_fd-fd_of w.entry.fd ch.fd w.matches.0,
            )
            refl,
        modified-Updated w.place w.entry c w.index_is w.slot w.matches.0,
      )
