-- ===== src/Poller/PollPoller/Indexed.antt =====
-- PollPoller.cpp: the array and the map agree.
use event_loop.Prelude.{ℕ, ◌≡◌, ◌⊎◌, Bool, true, false, some, List, get_elem?, ◌==◌, pos, negsuc}
use event_loop.Channel
use event_loop.Channel.{Channel}
use event_loop.Poller.PollPoller.{PollFd, PollPoller, fd_of}

-- An entry says what a channel wants; it is ignored only for a channel that wants nothing.
abbrev pub IsWatchedFor : Channel → PollFd → Type 0
IsWatchedFor ch e =
    (e.events ≡ Channel.mask ch)
    × ((e.fd ≡ pos ch.fd) ⊎ ((e.fd ≡ negsuc ch.fd) × (Channel.is_none_event ch ≡ true)))

-- An entry belongs to a channel, and says what it wants unless that changed since it was updated.
abbrev pub Matches : Bool → Channel → PollFd → Type 0
Matches stale ch e = (fd_of e.fd ≡ ch.fd) × (stale ≡ false → IsWatchedFor ch e)

-- A channel's place in the array.
pub record EntryOf (stale : Bool) (ch : Channel) (pollfds : List PollFd) : Type 0 where
  pub place : ℕ
  pub entry : PollFd
  pub index_is : ch.index ≡ some place
  pub slot : get_elem? pollfds place ≡ some entry
  pub matches : Matches stale ch entry

pub record Indexed (stale : ℕ → Bool) (q : PollPoller) : Type 0 where
  pub present :
      (fd p : ℕ)
      → q.channels fd ≡ some p
      → ((q.store p).fd ≡ fd) × EntryOf (stale p) (q.store p) q.pollfds
  pub listed :
      (i : ℕ) (e : PollFd)
      → get_elem? q.pollfds i ≡ some e
      → (p : ℕ) × (q.channels (fd_of e.fd) ≡ some p) × ((q.store p).index ≡ some i)

-- No interest changed, and that of one channel did.
abbrev pub never : ℕ → Bool
never r = false

abbrev pub only : ℕ → ℕ → Bool
only p r = r == p
