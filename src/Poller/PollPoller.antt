-- ===== src/Poller/PollPoller.antt =====
-- src/PollPoller.cpp: the array for poll(2) beside the map of channels. A channel's index is its place in the
-- array. What poll(2) writes to `revents` is an argument.
pub mod Slots
pub mod Indexed
pub mod Changes
pub mod Removal
pub mod Active
mod Tests
use event_loop.Prelude.{
  ℕ, ◌+◌, ◌-◌, Bool, true, false, ◌&&◌, ◌||◌, Option, none, some, List, [], ◌∷◌, ◌++◌, length,
  get_elem?, set, take, ltb, ◌==◌, if◌then◌else◌, Result, ok, err, check, undefined_access,
  assertion_failed, ◌>>=◌, ◌>>◌, ℤ, pos, negsuc,
}
use event_loop.Channel
use event_loop.Channel.{Channel}
use event_loop.Poller.Store.{Store, ChannelMap, put, is_entry, is_absent}

pub record PollFd : Type 0 where
  pub fd : ℤ
  pub events : ℕ
  pub revents : ℕ

pub record PollPoller : Type 0 where
  pub store : Store
  pub channels : ChannelMap
  pub pollfds : List PollFd

-- A descriptor is `pos fd`, and `negsuc fd` is `-fd - 1`.
abbrev pub is_fd : ℤ → ℕ → Bool
is_fd (pos n) fd = n == fd
is_fd (negsuc n) fd = false

abbrev pub is_ignored : ℤ → ℕ → Bool
is_ignored (pos n) fd = false
is_ignored (negsuc n) fd = n == fd

-- `v[i]`, and what a pointer that may be null points to.
abbrev pub at {ℓ} : {A : Type ℓ} → Option A → Result A
at none = err undefined_access
at (some a) = ok a

-- The entry of a channel.
abbrev pub entry_of : Channel → PollFd
entry_of ch = record { fd = pos ch.fd; events = Channel.mask ch; revents = 0 }

abbrev pub set_index : Store → ℕ → ℕ → Store
set_index store p i = put store p (Channel.set_index (store p) (some i))

unfoldable pub add : PollPoller → ℕ → Result PollPoller
unfolding Channel.set_index
add q p =
    let ch = q.store p in
    check (is_absent (q.channels ch.fd))
    >> ok (record q {
      pollfds = q.pollfds ++ entry_of ch ∷ [];
      store = set_index q.store p (length q.pollfds);
      channels = put q.channels ch.fd (some p);
    })

unfoldable pub modify : PollPoller → ℕ → ℕ → Result PollPoller
unfolding Channel.is_none_event
modify q p idx =
    let ch = q.store p in
    check (is_entry (q.channels ch.fd) p)
    >> check (ltb idx (length q.pollfds))
    >> (at (get_elem? q.pollfds idx) >>= λ pfd.
        check (is_fd pfd.fd ch.fd || is_ignored pfd.fd ch.fd)
        >> ok (record q {
          pollfds = set q.pollfds idx (record (entry_of ch) {
            fd = if Channel.is_none_event ch then negsuc ch.fd else pos ch.fd;
          });
        }))

unfoldable pub update_channel : PollPoller → ℕ → Result PollPoller
unfolding add modify
update_channel q p = elim (q.store p).index [ none ↦ add q p | some idx ↦ modify q p idx ]

-- `channelAtEnd`.
abbrev pub fd_of : ℤ → ℕ
fd_of (pos n) = n
fd_of (negsuc n) = n

-- The entry at `idx` goes, and the last one takes its place.
unfoldable pub drop_entry : PollPoller → ℕ → Result PollPoller
unfolding Channel.set_index
drop_entry q idx =
    let end = length q.pollfds - 1 in
    if idx == end
    then ok (record q { pollfds = take end q.pollfds })
    else (at (get_elem? q.pollfds end) >>= λ last. at (q.channels (fd_of last.fd)) >>= λ r.
        ok (record q {
          pollfds = take end (set q.pollfds idx last);
          store = set_index q.store r idx;
        }))

unfoldable pub remove_channel : PollPoller → ℕ → Result PollPoller
unfolding drop_entry Channel.is_none_event
remove_channel q p =
    let ch = q.store p in
    check (is_entry (q.channels ch.fd) p) >> check (Channel.is_none_event ch) >> elim ch.index [
      | none ↦ err assertion_failed
      | some idx ↦
          check (ltb idx (length q.pollfds))
          >> (at (get_elem? q.pollfds idx) >>= λ pfd.
              check (is_ignored pfd.fd ch.fd && pfd.events == Channel.mask ch)
              >> drop_entry (record q { channels = put q.channels ch.fd none }) idx)
    ]

-- The channel of an entry, with its assertions.
unfoldable pub channel_of : PollPoller → ℤ → Result ℕ
channel_of q (pos fd) = elim (q.channels fd) [
  | none ↦ err assertion_failed
  | some p ↦ check ((q.store p).fd == fd) >> ok p
]
channel_of q (negsuc fd) = err assertion_failed

-- `fillActiveChannels` from an entry on: the channels whose entries have events, `n` of them at most.
unfoldable pub fill_active_channels : PollPoller → List PollFd → ℕ → Result (List ℕ)
unfolding channel_of
fill_active_channels q [] n = ok []
fill_active_channels q (pfd ∷ pfds) n =
    let rest = fill_active_channels q pfds n in
    let less = fill_active_channels q pfds (n - 1) in
    let found = channel_of q pfd.fd >>= (λ p. less >>= (λ ps. ok (p ∷ ps))) in
    if n == 0 then ok [] else if pfd.revents == 0 then rest else found

-- `poll`, given the entries as poll(2) leaves them and the number that it returns; 0 for a timeout or an
-- error.
unfoldable pub poll : PollPoller → List PollFd → ℕ → Result (PollPoller × List ℕ)
unfolding fill_active_channels
poll q pfds n =
    let q' : PollPoller = record q { pollfds = pfds } in
    fill_active_channels q' pfds n >>= (λ ps. ok (q', ps))
