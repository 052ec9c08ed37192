-- ===== src/Poller/Store.antt =====
-- src/Poller.h and src/Poller.cpp: the channels by file descriptor. A `Channel*` is an address, at which
-- `store` has the channel; `ChannelMap` is a function.
use event_loop.Prelude.{ℕ, Bool, true, false, Option, none, some, ◌==◌, if◌then◌else◌}
use event_loop.Channel.{Channel}

abbrev pub Store : Type 0
Store = ℕ → Channel

abbrev pub ChannelMap : Type 0
ChannelMap = ℕ → Option ℕ

-- Writing a channel, or an entry of the map.
abbrev pub put {ℓ} : {A : Type ℓ} → (ℕ → A) → ℕ → A → ℕ → A
put f k v j = if j == k then v else f j

-- `channels_.find(fd) != channels_.end() && channels_[fd] == channel`
abbrev pub is_entry : Option ℕ → ℕ → Bool
is_entry none p = false
is_entry (some q) p = q == p

abbrev pub is_absent : Option ℕ → Bool
is_absent none = true
is_absent (some q) = false

-- `hasChannel`, given the map and the file descriptor of the channel.
unfoldable pub has_channel : ChannelMap → ℕ → ℕ → Bool
has_channel channels fd p = is_entry (channels fd) p
