-- ===== src/Poller/Epoll/Removal.antt =====
-- EPollPoller.cpp: removing a channel.
use event_loop.Prelude.{
  ℕ, ◌≡◌, refl, ap, ◌∙◌, inl, inr, true, none, some, ◌==◌, ==_iff, ==_self, if◌then◌else◌,
  Bool-cases, ok,
}
use event_loop.Channel
use event_loop.Channel.{Channel}
use event_loop.Poller.Store.{put}
use event_loop.Poller.Epoll.{
  Epoll, EpollPoller, event_of, added, deleted, ctl_del, update, remove_channel,
}
use event_loop.Poller.Epoll.Synced.{Synced, SyncedBut, changed-Synced}
use event_loop.Poller.Epoll.Changes.{indexed}

-- A poller after a removal.
pub record Removed {k : Epoll} (q : EpollPoller k) (p : ℕ) (q' : EpollPoller k) : Type 0 where
  pub synced : Synced q'
  pub unlisted : q'.channels (q.store p).fd ≡ none
  pub unindexed : (q'.store p).index ≡ none
  pub watched :
      (g : ℕ) → k.watched q'.set g ≡ (if g == (q.store p).fd then none else k.watched q.set g)

Synced-SyncedBut : {k : Epoll} {q : EpollPoller k} (p : ℕ) → Synced q → SyncedBut q p
Synced-SyncedBut p s = record {
  absent = s.absent;
  present = λ fd r h n. s.present fd r h;
  mine = λ fd h. (s.present fd p h).0;
  owned = λ r i n h. s.owned r i h;
}

module _ {k : Epoll} (q : EpollPoller k) (p : ℕ) where
  abbrev fd : ℕ
  fd = (q.store p).fd

  abbrev left : k.Watched → EpollPoller k
  left set = record q {
    store = put q.store p (indexed (q.store p) none);
    channels = put q.channels fd none;
    set = set;
  }

  remove_channel-added :
      (q.store p).index ≡ some added
      → q.channels fd ≡ some p
      → Channel.is_none_event (q.store p) ≡ true
      → remove_channel q p ≡ ok (left (k.ctl q.set ctl_del fd (event_of (q.store p) p)))
  unfolding remove_channel update Channel.set_index Channel.is_none_event Channel.mask
  remove_channel-added e f n = rw (remove_channel, e, f, ==_self p, n) refl

  remove_channel-deleted :
      (q.store p).index ≡ some deleted
      → q.channels fd ≡ some p
      → Channel.is_none_event (q.store p) ≡ true
      → remove_channel q p ≡ ok (left q.set)
  unfolding remove_channel update Channel.set_index Channel.is_none_event Channel.mask
  remove_channel-deleted e f n = rw (remove_channel, e, f, ==_self p, n) refl

  left-Removed :
      Synced q
      → q.channels fd ≡ some p
      → (set : k.Watched)
      → ((g : ℕ) → k.watched set g ≡ (if g == fd then none else k.watched q.set g))
      → Removed q p (left set)
  left-Removed s f set w = record {
    synced =
        changed-Synced p (Synced-SyncedBut p s) (indexed (q.store p) none) none none _ _ refl
          (inr f) (λ g. refl) w (inl (refl, refl, refl));
    unlisted = rw ==_self refl;
    unindexed = rw ==_self refl;
    watched = w;
  }

  -- `removeChannel` of a channel that is in the map and wants no events fails no assertion. The channel is
  -- new again, its descriptor is in no use and is not watched, and every other one is watched as before.
  pub remove_channel_lem :
      Synced q
      → q.channels fd ≡ some p
      → Channel.is_none_event (q.store p) ≡ true
      → (q' : EpollPoller k) × (remove_channel q p ≡ ok q') × Removed q p q'
  remove_channel_lem s f n = elim (s.present fd p f).1 [
    | inl (e, w) ↦ (
      left (k.ctl q.set ctl_del fd (event_of (q.store p) p)),
      remove_channel-added e f n,
      left-Removed s f _ (k.deletes q.set fd _ (event_of (q.store p) p) w),
    )
    | inr (e, w, _) ↦ (
      left q.set,
      remove_channel-deleted e f n,
      left-Removed s f q.set (λ g. elim (Bool-cases (g == fd)) [
        | inl h ↦ rw h (ap (k.watched q.set) ((==_iff g fd).0 h) ∙ w)
        | inr h ↦ rw h refl
      ]),
    )
  ]
