-- ===== src/Poller/Epoll/Tests.antt =====
-- EPollPoller.cpp over a kernel that is a function.
use event_loop.Prelude.{
  ℕ, ◌≡◌, refl, Bool, true, false, not, Option, none, some, List, [], ◌∷◌, map, ◌==◌, ◌*◌,
  if◌then◌else◌, length, ok, arith, inl, inr, Bool-cases, ==_iff,
}
use event_loop.Channel
use event_loop.Channel.{Channel, new_channel}
use event_loop.Poller.Store.{put}
use event_loop.Poller.Epoll.{
  Epoll, Event, Operation, ctl_add, ctl_mod, ctl_del, EpollPoller, event_of, added, update_channel,
  remove_channel, poll,
}
use event_loop.Poller.Epoll.Synced.{Synced, changed-SyncedBut}
use event_loop.Poller.Epoll.Changes.{is_new, Updated, Unheard, is_accepted, update_channel_lem}
use event_loop.Poller.Epoll.Removal.{Removed, remove_channel_lem}
use event_loop.Poller.Epoll.Active.{revents_after, poll_lem}

abbrev after : Operation → Event → ℕ → Option Event
after ctl_add e fd = if fd == 0 then none else some e
after ctl_mod e fd = some e
after ctl_del e fd = none

after_unchanged :
    (s : ℕ → Option Event) (fd : ℕ) (e : Event)
    → s fd ≡ none
    → not (fd == 0) ≡ false
    → (g : ℕ) → put s fd (after ctl_add e fd) g ≡ s g
after_unchanged s fd e h a g = elim (Bool-cases (g == fd)) [
  | inl y ↦ rw (y, (==_iff g fd).0 y, h) (ground (arith, a))
  | inr n ↦ rw n refl
]

-- A set that obeys every request, but to add descriptor 0.
abbrev obedient : Epoll
obedient = record {
  Watched = ℕ → Option Event;
  watched = λ s fd. s fd;
  ctl = λ s op fd e. put s fd (after op e fd);
  admits = λ s fd. not (fd == 0);
  adds = λ s fd e h a g. ground (arith, a);
  refuses = after_unchanged;
  modifies = λ s fd e d h g. refl;
  deletes = λ s fd e d h g. refl;
}

-- A channel of descriptor 5 that wants to read, at address 9; no other is known.
abbrev reader : Option ℕ → Channel
reader i = record {
  fd = 5;
  reads = true;
  writes = false;
  revents = 0;
  index = i;
  log_hup = true;
  tied = false;
  event_handling = false;
  added_to_loop = true;
  callbacks = record { on_read = true; on_write = false; on_close = false; on_error = false };
}

abbrev quiet : Option ℕ → Channel
quiet i = record (reader i) { reads = false }

abbrev nobody : EpollPoller obedient
nobody = record { store = λ p. quiet none; channels = λ fd. none; set = λ fd. none; capacity = 16 }

nobody-Synced : Synced nobody
nobody-Synced = record { absent = λ fd h. refl; present = λ fd p h. cc; owned = λ p i h. cc }

abbrev wanting : EpollPoller obedient
wanting = record nobody { store = put nobody.store 9 (reader none) }

update_channel_lem_example :
    (q' : EpollPoller obedient) × (update_channel wanting 9 ≡ ok q')
    × (is_accepted wanting 9 ≡ true → Updated wanting 9 q')
    × (is_accepted wanting 9 ≡ false → Unheard wanting 9 q')
update_channel_lem_example =
    update_channel_lem wanting 9 (changed-SyncedBut 9 (reader none) nobody-Synced refl)
      (is_new refl refl)

-- The channel at 9 is watched for what it wants.
abbrev one : Channel → EpollPoller obedient
one ch = record {
  store = put nobody.store 9 ch;
  channels = put nobody.channels 5 (some 9);
  set = put nobody.set 5 (some (event_of ch 9));
  capacity = 16;
}

one-Synced : (reads : Bool) → Synced (one (record (reader (some added)) { reads = reads }))
one-Synced reads = record {
  absent = λ fd h. elim (Bool-cases (fd == 5)) [
    | inl e ↦ absurd (ground (arith, e, h))
    | inr e ↦ rw e refl
  ];
  present = λ fd p h. elim (Bool-cases (fd == 5)) [
    | inl e ↦
        let same : p ≡ 9 = ground (arith, e, h) in
        rw (same, (==_iff fd 5).0 e) (refl, inl (refl, refl))
    | inr e ↦ absurd (ground (arith, e, h))
  ];
  owned = λ p i h. elim (Bool-cases (p == 9)) [
    | inl e ↦ rw (e, (==_iff p 9).0 e) refl
    | inr e ↦ absurd (ground (arith, e, h))
  ];
}

remove_channel_lem_example :
    (q' : EpollPoller obedient) × (remove_channel (one (quiet (some added))) 9 ≡ ok q')
    × Removed (one (quiet (some added))) 9 q'
unfolding Channel.is_none_event
remove_channel_lem_example =
    remove_channel_lem (one (quiet (some added))) 9 (one-Synced false) refl refl

-- The descriptor is readable.
abbrev readable : List Event
readable = record { events = 1; ptr = 9 } ∷ []

poll_lem_example :
    (q' : EpollPoller obedient) × (poll (one (reader (some added))) readable
      ≡ ok (q', map (λ (e : Event). e.ptr) readable))
    × Synced q'
    × ((p : ℕ)
        → (q'.store p).revents
          ≡ revents_after readable p ((one (reader (some added))).store p).revents)
    × (q'.capacity ≡ (if length readable == 16 then 16 * 2 else 16))
poll_lem_example =
    poll_lem (one (reader (some added))) readable (one-Synced true)
      ((5, event_of (reader (some added)) 9, refl, refl), tt) (omega arith) (omega arith)
