-- ===== src/Poller/Epoll.antt =====
-- src/EPollPoller.cpp. The set of descriptors that the kernel watches is a parameter, `Epoll`, with what
-- epoll_ctl(2) says of its three operations. A channel is changed first, and then updated in the
-- poller.
pub mod Synced
pub mod Changes
pub mod Removal
pub mod Active
mod Tests
use event_loop.Prelude.{
  ℕ, ◌*◌, ◌≤◌, Bool, true, false, ◌||◌, Option, none, some, List, [], ◌∷◌, ◌++◌, length, leb, ◌==◌,
  if◌then◌else◌, Result, ok, check, ◌>>=◌, ◌>>◌, ◌≡◌,
}
use event_loop.Channel
use event_loop.Channel.{Channel}
use event_loop.Poller.Store.{Store, ChannelMap, put, is_entry, is_absent}

-- `struct epoll_event`: the events, and the channel's address as data.
pub record Event : Type 0 where
  pub events : ℕ
  pub ptr : ℕ

pub data Operation : Type 0 where
  ctl_add ctl_mod ctl_del : Operation

-- What the kernel keeps. A descriptor that is not watched is added if the kernel admits it, with memory and
-- watches left and a file that can be polled, and else nothing changes; one that is watched can be modified
-- and deleted.
pub record Epoll : Type 1 where
  pub Watched : Type 0
  pub watched : Watched → ℕ → Option Event
  pub ctl : Watched → Operation → ℕ → Event → Watched
  pub admits : Watched → ℕ → Bool
  pub adds :
      (s : Watched) (fd : ℕ) (e : Event)
      → watched s fd ≡ none
      → admits s fd ≡ true
      → (g : ℕ) → watched (ctl s ctl_add fd e) g ≡ (if g == fd then some e else watched s g)
  pub refuses :
      (s : Watched) (fd : ℕ) (e : Event)
      → watched s fd ≡ none
      → admits s fd ≡ false
      → (g : ℕ) → watched (ctl s ctl_add fd e) g ≡ watched s g
  pub modifies :
      (s : Watched) (fd : ℕ) (e d : Event)
      → watched s fd ≡ some d
      → (g : ℕ) → watched (ctl s ctl_mod fd e) g ≡ (if g == fd then some e else watched s g)
  pub deletes :
      (s : Watched) (fd : ℕ) (e d : Event)
      → watched s fd ≡ some d
      → (g : ℕ) → watched (ctl s ctl_del fd e) g ≡ (if g == fd then none else watched s g)

-- kAdded and kDeleted; kNew is -1, the index `none`.
abbrev pub added : ℕ
added = 1

abbrev pub deleted : ℕ
deleted = 2

-- `capacity` is the size of `events_`.
pub record EpollPoller (k : Epoll) : Type 0 where
  pub store : Store
  pub channels : ChannelMap
  pub set : k.Watched
  pub capacity : ℕ

-- What the poller tells the kernel of a channel.
abbrev pub event_of : Channel → ℕ → Event
event_of ch p = record { events = Channel.mask ch; ptr = p }

module _ {k : Epoll} where
  abbrev pub set_index : EpollPoller k → ℕ → Option ℕ → EpollPoller k
  set_index q p i = record q { store = put q.store p (Channel.set_index (q.store p) i) }

  -- A failed epoll_ctl(2) is only printed: the channel's index and the map stay as they were changed.
  unfoldable pub update : EpollPoller k → Operation → ℕ → EpollPoller k
  update q op p = let ch = q.store p in record q { set = k.ctl q.set op ch.fd (event_of ch p) }

  -- The first branch of `updateChannel`, once the assertions hold.
  abbrev pub add : EpollPoller k → ℕ → EpollPoller k
  add q p = update (set_index q p (some added)) ctl_add p

  unfoldable pub update_channel : EpollPoller k → ℕ → Result (EpollPoller k)
  unfolding update Channel.is_none_event Channel.set_index
  update_channel q p =
      let ch = q.store p in
      elim ch.index [
        | none ↦
            check (is_absent (q.channels ch.fd))
            >> ok (add (record q { channels = put q.channels ch.fd (some p) }) p)
        | some i ↦
            check (is_entry (q.channels ch.fd) p)
            >> (if i == deleted
                then ok (add q p)
                else check (i == added)
                  >> (if Channel.is_none_event ch
                      then ok (set_index (update q ctl_del p) p (some deleted))
                      else ok (update q ctl_mod p)))
      ]

  unfoldable pub remove_channel : EpollPoller k → ℕ → Result (EpollPoller k)
  unfolding update Channel.is_none_event Channel.set_index
  remove_channel q p =
      let ch = q.store p in
      check (is_entry (q.channels ch.fd) p) >> check (Channel.is_none_event ch) >> elim ch.index [
        | none ↦ check false >> ok q
        | some i ↦
            let q' : EpollPoller k = record q { channels = put q.channels ch.fd none } in
            check (i == added || i == deleted)
            >> ok (set_index (if i == added then update q' ctl_del p else q') p none)
      ]

  -- One event that epoll_wait(2) returns: the channel's assertions, its `revents`, and its address.
  unfoldable pub fill_one : EpollPoller k → Event → Result (EpollPoller k)
  unfolding Channel.set_revents
  fill_one q e =
      check (is_entry (q.channels (q.store e.ptr).fd) e.ptr)
      >> ok (record q { store = put q.store e.ptr (Channel.set_revents (q.store e.ptr) e.events) })

  unfoldable pub fill_all : EpollPoller k → List Event → Result (EpollPoller k × List ℕ)
  fill_all q [] = ok (q, [])
  fill_all q (e ∷ es) = fill_one q e >>= (λ q'. fill_all q' es >>= (λ r. ok (r.0, e.ptr ∷ r.1)))

  unfoldable pub fill_active_channels : EpollPoller k → List Event → Result (EpollPoller k × List ℕ)
  fill_active_channels q es = check (leb (length es) q.capacity) >> fill_all q es

  -- `poll`, given the events that epoll_wait(2) returns; none for a timeout or an error.
  unfoldable pub poll : EpollPoller k → List Event → Result (EpollPoller k × List ℕ)
  poll q [] = ok (q, [])
  poll q (e ∷ es) = fill_active_channels q (e ∷ es) >>= (λ r. ok (
    if length (e ∷ es) == r.0.capacity then record r.0 { capacity = r.0.capacity * 2 } else r.0,
    r.1,
  ))
