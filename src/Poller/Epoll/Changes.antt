-- ===== src/Poller/Epoll/Changes.antt =====
-- EPollPoller.cpp: what a change of a channel's interest, and its removal, do to the kernel's set.
use mathlib.Core.Path.{fun_ext}
use event_loop.Prelude.{
  ℕ, ◌≡◌, refl, sym, ap, ap₂, subst, ◌∙◌, inl, inr, Bool, true, false, ◌&&◌, ◌||◌, arith, Option,
  none, some, ◌==◌, ==_iff, ==_self, if◌then◌else◌, Bool-cases, ok,
}
use event_loop.Channel
use event_loop.Channel.{Channel}
use event_loop.Poller.Store.{Store, ChannelMap, put}
use event_loop.Poller.Epoll.{
  Epoll, Event, EpollPoller, event_of, added, deleted, ctl_add, ctl_mod, ctl_del, update,
  update_channel,
}
use event_loop.Poller.Epoll.Synced.{Synced, SyncedBut, changed-Synced}

abbrev pub indexed : Channel → Option ℕ → Channel
indexed ch i = record ch { index = i }

module _ {k : Epoll} (q : EpollPoller k) (p : ℕ) where
  abbrev entered : ChannelMap → EpollPoller k
  entered channels = record q {
    store = put q.store p (indexed (q.store p) (some added));
    channels = channels;
    set = k.ctl q.set ctl_add (q.store p).fd (event_of (indexed (q.store p) (some added)) p);
  }

  update_channel-new :
      (q.store p).index ≡ none
      → q.channels (q.store p).fd ≡ none
      → update_channel q p ≡ ok (entered (put q.channels (q.store p).fd (some p)))
  unfolding update_channel update Channel.set_index
  update_channel-new e f = rw (update_channel, e, f, ==_self p) refl

  update_channel-deleted :
      (q.store p).index ≡ some deleted
      → q.channels (q.store p).fd ≡ some p
      → update_channel q p ≡ ok (entered q.channels)
  unfolding update_channel update Channel.set_index
  update_channel-deleted e f = rw (update_channel, e, f, ==_self p) refl

  update_channel-none :
      (q.store p).index ≡ some added
      → q.channels (q.store p).fd ≡ some p
      → Channel.is_none_event (q.store p) ≡ true
      → update_channel q p
        ≡ ok (record q {
          store = put q.store p (indexed (q.store p) (some deleted));
          set = k.ctl q.set ctl_del (q.store p).fd (event_of (q.store p) p);
        })
  unfolding update_channel update Channel.set_index Channel.is_none_event Channel.mask
  update_channel-none e f n = rw (update_channel, e, f, ==_self p, n) refl

  update_channel-added :
      (q.store p).index ≡ some added
      → q.channels (q.store p).fd ≡ some p
      → Channel.is_none_event (q.store p) ≡ false
      → update_channel q p
        ≡ ok (record q { set = k.ctl q.set ctl_mod (q.store p).fd (event_of (q.store p) p) })
  unfolding update_channel update Channel.set_index Channel.is_none_event Channel.mask
  update_channel-added e f n = rw (update_channel, e, f, ==_self p, n) refl

-- How a channel stands before it is updated: it is new and its descriptor is in no use, or it is in the
-- map, and was deleted in the kernel or is watched.
pub data Stands {k : Epoll} (q : EpollPoller k) (p : ℕ) : Type 0 where
  is_new : (q.store p).index ≡ none → q.channels (q.store p).fd ≡ none → Stands q p
  was_deleted :
      (q.store p).index ≡ some deleted
      → q.channels (q.store p).fd ≡ some p
      → k.watched q.set (q.store p).fd ≡ none
      → Stands q p
  was_added :
      (q.store p).index ≡ some added
      → q.channels (q.store p).fd ≡ some p
      → (d : Event) → k.watched q.set (q.store p).fd ≡ some d
      → Stands q p

abbrev pub is_added : Option ℕ → Bool
is_added none = false
is_added (some i) = i == added

-- What the kernel is to watch for a channel: nothing if it was watched and wants nothing now.
abbrev pub wanted : Channel → ℕ → Option Event
wanted ch p = if is_added ch.index && Channel.is_none_event ch then none else some (event_of ch p)

-- A poller after an update.
pub record Updated {k : Epoll} (q : EpollPoller k) (p : ℕ) (q' : EpollPoller k) : Type 0 where
  pub synced : Synced q'
  pub listed : q'.channels (q.store p).fd ≡ some p
  pub watched :
      (g : ℕ)
      → k.watched q'.set g
        ≡ (if g == (q.store p).fd then wanted (q.store p) p else k.watched q.set g)

put_at : (st : Store) (p : ℕ) (c : Channel) → put st p c p ≡ c
put_at st p c = rw ==_self refl

put_self : (st : Store) (p : ℕ) → put st p (st p) ≡ st
put_self st p = fun_ext (λ j. elim (Bool-cases (j == p)) [
  | inl e ↦ rw e (ap st (sym ((==_iff j p).0 e)))
  | inr e ↦ rw e refl
])

abbrev pub is_accepted : {k : Epoll} → EpollPoller k → ℕ → Bool
is_accepted {k} q p = is_added (q.store p).index || k.admits q.set (q.store p).fd

-- A poller after an update that the kernel refused.
pub record Unheard {k : Epoll} (q : EpollPoller k) (p : ℕ) (q' : EpollPoller k) : Type 0 where
  pub marked : (q'.store p).index ≡ some added
  pub kept : q'.channels (q.store p).fd ≡ some p
  pub unwatched : (g : ℕ) → k.watched q'.set g ≡ k.watched q.set g

module _ {k : Epoll} (q : EpollPoller k) (p : ℕ) (s : SyncedBut q p) where
  abbrev fd : ℕ
  fd = (q.store p).fd

  entry_lem :
      (v : Option ℕ) (g : ℕ)
      → q.channels fd ≡ v
      → q.channels g ≡ (if g == fd then v else q.channels g)
  entry_lem v g e = elim (Bool-cases (g == fd)) [
    | inl h ↦ rw h (ap q.channels ((==_iff g fd).0 h) ∙ e)
    | inr h ↦ rw h refl
  ]

  wanted_at :
      (g : ℕ) {i : Option ℕ} {b : Bool}
      → (q.store p).index ≡ i
      → Channel.is_none_event (q.store p) ≡ b
      → (if g == fd
          then (if is_added i && b then none else some (event_of (q.store p) p))
          else k.watched q.set g)
        ≡ (if g == fd then wanted (q.store p) p else k.watched q.set g)
  wanted_at g e n =
      ap₂
        (λ i b.
          if g == fd
          then (if is_added i && b then none else some (event_of (q.store p) p))
          else k.watched q.set g)
        (sym e) (sym n)

  admitted :
      {i : Option ℕ}
      → (q.store p).index ≡ i
      → is_added i ≡ false
      → is_accepted q p ≡ true
      → k.admits q.set fd ≡ true
  admitted e n y = ground (arith, e, n, y)

  declined : is_accepted q p ≡ false → k.admits q.set fd ≡ false
  declined n = ground (arith, n)

  -- In a poller that agrees with the kernel but for a channel, which is new, was deleted or is watched:
  -- updateChannel fails no assertion. If the channel is watched, or the kernel admits its descriptor, then the
  -- channel is in the map, the kernel watches its descriptor for what it wants, and for every other
  -- descriptor what it did. If the kernel refuses the descriptor, it watches what it did, but the
  -- channel is in the map and marked as added.
  pub update_channel_lem :
      Stands q p
      → (q' : EpollPoller k) × (update_channel q p ≡ ok q')
        × (is_accepted q p ≡ true → Updated q p q')
        × (is_accepted q p ≡ false → Unheard q p q')
  unfolding Channel.mask Channel.is_none_event
  update_channel_lem (is_new e f) = (
    entered q p (put q.channels fd (some p)),
    update_channel-new q p e f,
    λ y. record {
      synced =
          changed-Synced p s (indexed (q.store p) (some added)) (some p) _ _ _ refl (inl f)
            (λ g. refl) (k.adds q.set fd _ (s.absent fd f) (admitted e refl y))
            (inr (refl, inl (refl, refl)));
      listed = rw ==_self refl;
      watched = λ g. k.adds q.set fd _ (s.absent fd f) (admitted e refl y) g ∙ wanted_at g e refl;
    },
    λ n. record {
      marked = ap (λ (c : Channel). c.index) (put_at q.store p (indexed (q.store p) (some added)));
      kept = rw ==_self refl;
      unwatched = k.refuses q.set fd _ (s.absent fd f) (declined n);
    },
  )
  update_channel_lem (was_deleted e f n) = (
    entered q p q.channels,
    update_channel-deleted q p e f,
    λ y. record {
      synced =
          changed-Synced p s (indexed (q.store p) (some added)) (some p) _ _ _ refl (inr f)
            (λ g. entry_lem (some p) g f) (k.adds q.set fd _ n (admitted e refl y))
            (inr (refl, inl (refl, refl)));
      listed = f;
      watched = λ g. k.adds q.set fd _ n (admitted e refl y) g ∙ wanted_at g e refl;
    },
    λ r. record {
      marked = ap (λ (c : Channel). c.index) (put_at q.store p (indexed (q.store p) (some added)));
      kept = f;
      unwatched = k.refuses q.set fd _ n (declined r);
    },
  )
  update_channel_lem (was_added e f d w) = elim (Bool-cases (Channel.is_none_event (q.store p))) [
    | inl n ↦ (
      record q {
        store = put q.store p (indexed (q.store p) (some deleted));
        set = k.ctl q.set ctl_del fd (event_of (q.store p) p);
      },
      update_channel-none q p e f n,
      λ y. record {
        synced =
            changed-Synced p s (indexed (q.store p) (some deleted)) (some p) none _ _ refl (inr f)
              (λ g. entry_lem (some p) g f) (k.deletes q.set fd _ d w)
              (inr (refl, inr (refl, refl, n)));
        listed = f;
        watched = λ g. k.deletes q.set fd _ d w g ∙ wanted_at g e n;
      },
      λ r. absurd (ground (arith, e, r)),
    )
    | inr n ↦ (
      record q { set = k.ctl q.set ctl_mod fd (event_of (q.store p) p) },
      update_channel-added q p e f n,
      λ y. record {
        synced =
            subst
              (λ st.
                Synced
                  (record q { store = st; set = k.ctl q.set ctl_mod fd (event_of (q.store p) p) }))
              (put_self q.store p)
              (changed-Synced p s (q.store p) (some p) _ _ _ refl (inr f)
                (λ g. entry_lem (some p) g f) (k.modifies q.set fd _ d w)
                (inr (refl, inl (e, refl))));
        listed = f;
        watched = λ g. k.modifies q.set fd _ d w g ∙ wanted_at g e n;
      },
      λ r. absurd (ground (arith, e, r)),
    )
  ]
