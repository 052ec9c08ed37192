-- ===== src/Poller/PollPoller/Removal.antt =====
-- PollPoller.cpp: removing a channel, with the last entry moved to its place.
use event_loop.Prelude.{
  ℕ, suc, ◌-◌, ◌<◌, ◌≡◌, refl, sym, ap, subst, ◌∙◌, inl, inr, true, false, none, some, List, length,
  length-set, length-take, get_elem?, set, take, ltb, lt→ltb, ltb→lt, ◌==◌, ==_iff, ==_self,
  if◌then◌else◌, Bool-cases, Option-cases, ok, negsuc, arith,
}
use event_loop.Channel
use event_loop.Channel.{Channel}
use event_loop.Poller.Store.{put}
use event_loop.Poller.PollPoller.{PollFd, PollPoller, set_index, fd_of, drop_entry, remove_channel}
use event_loop.Poller.PollPoller.Slots.{get_elem?-set, get_elem?-lt, get_elem?-some, get_elem?-take}
use event_loop.Poller.PollPoller.Indexed.{Matches, EntryOf, Indexed, never}

-- A poller after a removal: one entry less, and the descriptor in no use.
pub record Removed (q : PollPoller) (p : ℕ) (q' : PollPoller) : Type 0 where
  pub indexed : Indexed never q'
  pub unlisted : q'.channels (q.store p).fd ≡ none
  pub kept : (g : ℕ) → (g == (q.store p).fd) ≡ false → q'.channels g ≡ q.channels g
  pub shorter : suc (length q'.pollfds) ≡ length q.pollfds

module _ (q : PollPoller) (p i : ℕ) (v : Indexed never q) (c : q.channels (q.store p).fd ≡ some p)
    (n : (q.store p).index ≡ some i) where
  abbrev fd : ℕ
  fd = (q.store p).fd

  abbrev end : ℕ
  end = length q.pollfds - 1

  abbrev fewer : PollPoller
  fewer = record q { channels = put q.channels fd none }

  -- A descriptor that is still in use is that of another channel, at another place.
  other_place :
      (g r : ℕ) (w : EntryOf false (q.store r) q.pollfds)
      → q.channels g ≡ some r
      → (g == fd) ≡ false
      → (w.place == i) ≡ false
  other_place g r w d k = elim (Bool-cases (w.place == i)) [
    | inr z ↦ z
    | inl z ↦
        let (here, u) = v.present fd p c in
        let place : u.place ≡ i = ground (arith, u.index_is, n) in
        let shared : w.entry ≡ u.entry = ground (
          arith,
          w.slot,
          u.slot,
          ap (get_elem? q.pollfds) ((==_iff w.place i).0 z),
          ap (get_elem? q.pollfds) place,
        ) in
        let fds : (q.store r).fd ≡ fd =
          sym w.matches.0 ∙ (ap (λ x. fd_of x.fd) shared ∙ u.matches.0) in
        absurd (ground (arith, fds, (v.present g r d).0, k))
  ]

  -- The entry that is at a place other than the one removed is of a descriptor still in use.
  other_fd :
      (j : ℕ) (e : PollFd)
      → get_elem? q.pollfds j ≡ some e
      → (j == i) ≡ false
      → (fd_of e.fd == fd) ≡ false
  other_fd j e h k = elim (Bool-cases (fd_of e.fd == fd)) [
    | inr z ↦ z
    | inl z ↦
        let (r, d, m) = v.listed j e h in
        let same : some r ≡ some p = sym d ∙ (ap q.channels ((==_iff (fd_of e.fd) fd).0 z) ∙ c) in
        let eq : r ≡ p = ground arith in
        absurd (ground (arith, sym m ∙ (ap (λ x. (q.store x).index) eq ∙ n), k))
  ]

  abbrev cut : PollPoller
  cut = record fewer { pollfds = take end q.pollfds }

  abbrev moved : PollFd → ℕ → PollPoller
  moved last r = record fewer {
    pollfds = take end (set q.pollfds i last);
    store = set_index q.store r i;
  }

  still : (g r : ℕ) → fewer.channels g ≡ some r → ((g == fd) ≡ false) × (q.channels g ≡ some r)
  still g r d = elim (Bool-cases (g == fd)) [
    | inl z ↦ absurd (ground arith)
    | inr z ↦ (z, ground arith)
  ]

  cut_slot : (j : ℕ) → (j == end) ≡ false → get_elem? cut.pollfds j ≡ get_elem? q.pollfds j
  cut_slot j k = elim (Option-cases (get_elem? q.pollfds j)) [
    | inl z ↦ ground (arith, get_elem?-take end q.pollfds j, z)
    | inr (e, z) ↦
        let less = get_elem?-lt q.pollfds j e z in
        let below : ltb j end ≡ true = ground arith in
        get_elem?-take end q.pollfds j ∙ rw below refl
  ]

  below_end :
      (xs : List PollFd) (j : ℕ) (e : PollFd)
      → get_elem? (take end xs) j ≡ some e
      → (j < end) × (get_elem? xs j ≡ some e)
  below_end xs j e h = elim (Bool-cases (ltb j end)) [
    | inl z ↦ (ltb→lt j end z, ground (arith, get_elem?-take end xs j, h, z))
    | inr z ↦ absurd (ground (arith, get_elem?-take end xs j, h, z))
  ]

  cut-Indexed : (i == end) ≡ true → Indexed never cut
  cut-Indexed at_end = record {
    present = λ g r d.
        let (z, old) = still g r d in
        let (here, w) = v.present g r old in
        let away : (w.place == end) ≡ false =
          subst (λ x. (w.place == x) ≡ false) ((==_iff i end).0 at_end) (other_place g r w old z) in
        (
          here,
          record {
            place = w.place;
            entry = w.entry;
            index_is = w.index_is;
            slot = cut_slot w.place away ∙ w.slot;
            matches = w.matches;
          },
        );
    listed = λ j e h.
        let (less, old) = below_end q.pollfds j e h in
        let away : (j == i) ≡ false = ground (arith, less, at_end) in
        let (r, d, m) = v.listed j e old in (r, rw (other_fd j e old away) d, m);
  }

  module _ (last : PollFd) (r : ℕ) (inside : (i == end) ≡ false) (less : i < length q.pollfds)
      (g : get_elem? q.pollfds end ≡ some last) (d : q.channels (fd_of last.fd) ≡ some r)
      (m : (q.store r).index ≡ some end) where
    moved_slot :
        (j : ℕ)
        → j < end
        → get_elem? (moved last r).pollfds j ≡ (if j == i then some last else get_elem? q.pollfds j)
    moved_slot j h =
        get_elem?-take end (set q.pollfds i last) j
        ∙ rw (lt→ltb j end h) (get_elem?-set q.pollfds i last j less)

    last-EntryOf : EntryOf false (Channel.set_index (q.store r) (some i)) (moved last r).pollfds
    unfolding Channel.set_index Channel.mask Channel.is_none_event
    last-EntryOf =
        let (here, w) = v.present (fd_of last.fd) r d in
        let place : w.place ≡ end = ground (arith, w.index_is, m) in
        let same : w.entry ≡ last = ground (arith, w.slot, g, ap (get_elem? q.pollfds) place) in
        record {
          place = i;
          entry = last;
          index_is = refl;
          slot = moved_slot i (ground arith) ∙ rw ==_self refl;
          matches = subst (λ e. Matches false (q.store r) e) same w.matches;
        }

    stays-EntryOf :
        (s : ℕ) (w : EntryOf false (q.store s) q.pollfds)
        → (w.place == i) ≡ false
        → (w.place == end) ≡ false
        → EntryOf false (q.store s) (moved last r).pollfds
    stays-EntryOf s w k l =
        let within = get_elem?-lt q.pollfds w.place w.entry w.slot in
        let below : w.place < end = ground arith in
        record {
          place = w.place;
          entry = w.entry;
          index_is = w.index_is;
          slot = moved_slot w.place below ∙ rw k w.slot;
          matches = w.matches;
        }

    -- Only the channel of the last entry is at the end.
    not_last :
        (h s : ℕ) (w : EntryOf false (q.store s) q.pollfds)
        → q.channels h ≡ some s
        → (s == r) ≡ false
        → (w.place == end) ≡ false
    not_last h s w e k = elim (Bool-cases (w.place == end)) [
      | inr z ↦ z
      | inl z ↦
          let shared : w.entry ≡ last =
            ground (arith, w.slot, g, ap (get_elem? q.pollfds) ((==_iff w.place end).0 z)) in
          let fds : h ≡ fd_of last.fd =
            sym (v.present h s e).0 ∙ (sym w.matches.0 ∙ ap (λ x. fd_of x.fd) shared) in
          let both : some s ≡ some r = sym e ∙ (ap q.channels fds ∙ d) in absurd (ground arith)
    ]

    moved-Indexed : Indexed never (moved last r)
    unfolding Channel.set_index
    moved-Indexed = record {
      present = λ h s e.
          let (z, old) = still h s e in
          let (here, w) = v.present h s old in
          elim (Bool-cases (s == r)) [
            | inl k ↦
                let eq : r ≡ s = sym ((==_iff s r).0 k) in
                rw k (ap (λ x. (q.store x).fd) eq ∙ here, last-EntryOf)
            | inr k ↦
                rw k (here, stays-EntryOf s w (other_place h s w old z) (not_last h s w old k))
          ];
      listed = λ j e h.
          let (below, there) = below_end (set q.pollfds i last) j e h in
          let slot = sym (get_elem?-set q.pollfds i last j less) ∙ there in
          elim (Bool-cases (j == i)) [
            | inl k ↦
                let same : last ≡ e = ground (arith, slot, k) in
                let away = other_fd end last g (ground arith) in
                (
                  r,
                  subst (λ x. put q.channels fd none (fd_of x.fd) ≡ some r) same (rw away d),
                  rw (==_self r) (ap some (sym ((==_iff j i).0 k))),
                )
            | inr k ↦
                let old : get_elem? q.pollfds j ≡ some e = ground (arith, slot, k) in
                let (s, a, b) = v.listed j e old in
                let differs : (s == r) ≡ false = elim (Bool-cases (s == r)) [
                  | inr z ↦ z
                  | inl z ↦
                      let both : some j ≡ some end =
                        sym b ∙ (ap (λ x. (q.store x).index) ((==_iff s r).0 z) ∙ m) in
                      absurd (ground (arith, both, below))
                ] in
                (s, rw (other_fd j e old k) a, rw differs b)
          ];
    }

  remove_channel-eq :
      (pfd : PollFd)
      → Channel.is_none_event (q.store p) ≡ true
      → get_elem? q.pollfds i ≡ some pfd
      → pfd.fd ≡ negsuc fd
      → remove_channel q p ≡ drop_entry fewer i
  unfolding remove_channel
  remove_channel-eq pfd quiet slot ignored =
      let (here, u) = v.present fd p c in
      let place : u.place ≡ i = ground (arith, u.index_is, n) in
      let same : u.entry ≡ pfd = ground (arith, u.slot, slot, ap (get_elem? q.pollfds) place) in
      let events : pfd.events ≡ Channel.mask (q.store p) =
        sym (ap PollFd.events same) ∙ (u.matches.1 refl).0 in
      let less = lt→ltb i (length q.pollfds) (get_elem?-lt q.pollfds i pfd slot) in
      rw
        (
          remove_channel,
          c,
          ==_self p,
          quiet,
          n,
          less,
          slot,
          ignored,
          events,
          ==_self fd,
          ==_self (Channel.mask (q.store p)),
        )
        refl

  drop_entry-cut : (i == end) ≡ true → drop_entry fewer i ≡ ok cut
  unfolding drop_entry
  drop_entry-cut k = rw k refl

  drop_entry-moved :
      (last : PollFd) (r : ℕ)
      → (i == end) ≡ false
      → get_elem? q.pollfds end ≡ some last
      → fewer.channels (fd_of last.fd) ≡ some r
      → drop_entry fewer i ≡ ok (moved last r)
  unfolding drop_entry
  drop_entry-moved last r k g d = rw (drop_entry, k, g, d) refl

  take_shorter :
      (xs : List PollFd)
      → 0 < length q.pollfds
      → length xs ≡ length q.pollfds
      → suc (length (take end xs)) ≡ length q.pollfds
  take_shorter xs h e = omega (arith, length-take end xs)

  -- In a poller where the array and the map agree: for a channel that is in the map and wants nothing, and whose
  -- entry was set to be ignored, removeChannel fails no assertion, wherever the entry is. The array is
  -- one shorter and agrees with the map, which has no channel at the descriptor and at each other one
  -- the channel that it had.
  pub remove_channel-Removed :
      (pfd : PollFd)
      → Channel.is_none_event (q.store p) ≡ true
      → get_elem? q.pollfds i ≡ some pfd
      → pfd.fd ≡ negsuc fd
      → (q' : PollPoller) × (remove_channel q p ≡ ok q') × Removed q p q'
  remove_channel-Removed pfd quiet slot ignored =
      let less = get_elem?-lt q.pollfds i pfd slot in
      let start = remove_channel-eq pfd quiet slot ignored in
      elim (Bool-cases (i == end)) [
        | inl k ↦ (
          cut,
          start ∙ drop_entry-cut k,
          record {
            indexed = cut-Indexed k;
            unlisted = rw ==_self refl;
            kept = λ g h. rw h refl;
            shorter = take_shorter q.pollfds (omega (arith, less)) refl;
          },
        )
        | inr k ↦
            let (last, g) = get_elem?-some q.pollfds end (omega (arith, less)) in
            let (r, d, m) = v.listed end last g in
            let away = other_fd end last g (ground arith) in
            (
              moved last r,
              start ∙ drop_entry-moved last r k g (rw away d),
              record {
                indexed = moved-Indexed last r k less g d m;
                unlisted = rw ==_self refl;
                kept = λ h e. rw e refl;
                shorter =
                    take_shorter (set q.pollfds i last) (omega (arith, less))
                      (length-set q.pollfds i last);
              },
            )
      ]
