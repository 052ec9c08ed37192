-- ===== src/Poller/PollPoller/Tests.antt =====
-- A poller of two channels, for examples.
use event_loop.Prelude.{
  ℕ, zero, suc, ◌≡◌, refl, sym, ap, subst, inl, inr, Bool, true, none, some, List, [], ◌∷◌,
  get_elem?, ◌==◌, ==_iff, if◌then◌else◌, Bool-cases, ok, ℤ, pos, negsuc, arith,
}
use event_loop.Channel
use event_loop.Channel.{Channel, new_channel}
use event_loop.Poller.PollPoller.{PollFd, PollPoller, fd_of, remove_channel}
use event_loop.Poller.PollPoller.Indexed.{EntryOf, Indexed, never}
use event_loop.Poller.PollPoller.Removal.{Removed, remove_channel-Removed}

-- Descriptor 5 at address 9 wants nothing, and 6 at address 4 wants to read.
abbrev quiet : Channel
unfolding new_channel
quiet = record (new_channel 5) { index = some 0; added_to_loop = true }

abbrev reader : Channel
unfolding new_channel
reader = record (new_channel 6) { index = some 1; reads = true; added_to_loop = true }

abbrev entry : ℤ → ℕ → ℕ → PollFd
entry fd events revents = record { fd = fd; events = events; revents = revents }

abbrev two : PollPoller
unfolding new_channel
two = record {
  store = λ p. if p == 9 then quiet else reader;
  channels = λ fd. if fd == 5 then some 9 else if fd == 6 then some 4 else none;
  pollfds = entry (negsuc 5) 0 0 ∷ entry (pos 6) 3 0 ∷ [];
}

quiet-EntryOf : (b : Bool) → EntryOf b quiet two.pollfds
unfolding two quiet Channel.mask Channel.is_none_event
quiet-EntryOf b = record {
  place = 0;
  entry = entry (negsuc 5) 0 0;
  index_is = refl;
  slot = refl;
  matches = (refl, λ s. (refl, inr (refl, refl)));
}

reader-EntryOf : (b : Bool) → EntryOf b reader two.pollfds
unfolding two reader Channel.mask Channel.is_none_event
reader-EntryOf b = record {
  place = 1;
  entry = entry (pos 6) 3 0;
  index_is = refl;
  slot = refl;
  matches = (refl, λ s. (refl, inl refl));
}

two-Indexed : (stale : ℕ → Bool) → Indexed stale two
unfolding two
two-Indexed stale = record { present = present; listed = listed }
  where
    present :
        (fd p : ℕ)
        → two.channels fd ≡ some p
        → ((two.store p).fd ≡ fd) × EntryOf (stale p) (two.store p) two.pollfds
    present fd p h = elim (Bool-cases (fd == 5)) [
      | inl k ↦
          let nine : 9 ≡ p = ground (arith, h, k) in
          subst (λ p. ((two.store p).fd ≡ fd) × EntryOf (stale p) (two.store p) two.pollfds) nine
            (sym ((==_iff fd 5).0 k), quiet-EntryOf (stale 9))
      | inr k ↦ elim (Bool-cases (fd == 6)) [
        | inl l ↦
            let four : 4 ≡ p = ground (arith, h, k, l) in
            subst (λ p. ((two.store p).fd ≡ fd) × EntryOf (stale p) (two.store p) two.pollfds) four
              (sym ((==_iff fd 6).0 l), reader-EntryOf (stale 4))
        | inr l ↦ absurd (ground (arith, h, k, l))
      ]
    ]

    first : (e : PollFd) → get_elem? two.pollfds 0 ≡ some e → e ≡ entry (negsuc 5) 0 0
    first e h = ground arith

    second : (e : PollFd) → get_elem? two.pollfds 1 ≡ some e → e ≡ entry (pos 6) 3 0
    second e h = ground arith

    listed :
        (i : ℕ) (e : PollFd)
        → get_elem? two.pollfds i ≡ some e
        → (p : ℕ) × (two.channels (fd_of e.fd) ≡ some p) × ((two.store p).index ≡ some i)
    listed zero e h = (9, ap (λ x. two.channels (fd_of x.fd)) (first e h), refl)
    listed (suc zero) e h = (4, ap (λ x. two.channels (fd_of x.fd)) (second e h), refl)
    listed (suc (suc i)) e h = absurd (ground arith)

remove_channel-Removed_example :
    (q' : PollPoller) × (remove_channel two 9 ≡ ok q') × Removed two 9 q'
unfolding two quiet Channel.is_none_event
remove_channel-Removed_example =
    remove_channel-Removed two 9 0 (two-Indexed never) refl refl (entry (negsuc 5) 0 0) refl refl
      refl

abbrev heard : List PollFd
heard = entry (negsuc 5) 0 0 ∷ entry (pos 6) 3 1 ∷ []
