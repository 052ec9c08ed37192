-- ===== src/Channel.antt =====
-- src/Channel.h and src/Channel.cpp: what a file descriptor is watched for, and which callbacks an
-- event calls. `events_` only ever holds kReadEvent, kWriteEvent, both or none, so it is kept as two
-- flags, with `mask` for its value; `index_` is `none` for -1.
pub mod Masks
mod Tests
use Prim.Native.Nat.{bit_and, bit_or}
use event_loop.Prelude.{
  ℕ, ◌+◌, Bool, true, false, not, ◌&&◌, Option, none, some, List, [], ◌∷◌, ◌++◌, ◌==◌,
  if◌then◌else◌, Result, ok, err, check, ◌>>=◌, ◌>>◌,
}

-- The bits of poll(2), which epoll(4) shares.
abbrev pub pollin : ℕ
pollin = 1

abbrev pub pollpri : ℕ
pollpri = 2

abbrev pub pollout : ℕ
pollout = 4

abbrev pub pollerr : ℕ
pollerr = 8

abbrev pub pollhup : ℕ
pollhup = 16

abbrev pub pollnval : ℕ
pollnval = 32

abbrev pub pollrdhup : ℕ
pollrdhup = 0x2000

abbrev pub none_event : ℕ
none_event = 0

abbrev pub read_event : ℕ
read_event = bit_or pollin pollpri

abbrev pub write_event : ℕ
write_event = pollout

-- The callbacks that are set.
pub record Callbacks : Type 0 where
  pub on_read : Bool
  pub on_write : Bool
  pub on_close : Bool
  pub on_error : Bool

pub record Channel : Type 0 where
  pub fd : ℕ
  pub reads : Bool
  pub writes : Bool
  pub revents : ℕ
  pub index : Option ℕ
  pub log_hup : Bool
  pub tied : Bool
  pub event_handling : Bool
  pub added_to_loop : Bool
  pub callbacks : Callbacks

unfoldable pub new_channel : ℕ → Channel
new_channel fd = record {
  fd = fd;
  reads = false;
  writes = false;
  revents = 0;
  index = none;
  log_hup = true;
  tied = false;
  event_handling = false;
  added_to_loop = false;
  callbacks = record { on_read = false; on_write = false; on_close = false; on_error = false };
}

-- The value of `events_`.
unfoldable pub mask : Channel → ℕ
mask c = (if c.reads then read_event else 0) + (if c.writes then write_event else 0)

unfoldable pub is_none_event : Channel → Bool
is_none_event c = not c.reads && not c.writes

unfoldable pub is_writing : Channel → Bool
is_writing c = c.writes

unfoldable pub is_reading : Channel → Bool
is_reading c = c.reads

-- The changes of `events_`; each also notes that the channel is in the loop, and is followed by the
-- poller's `updateChannel`.
unfoldable pub enable_reading : Channel → Channel
enable_reading c = record c { reads = true; added_to_loop = true }

unfoldable pub disable_reading : Channel → Channel
disable_reading c = record c { reads = false; added_to_loop = true }

unfoldable pub enable_writing : Channel → Channel
enable_writing c = record c { writes = true; added_to_loop = true }

unfoldable pub disable_writing : Channel → Channel
disable_writing c = record c { writes = false; added_to_loop = true }

unfoldable pub disable_all : Channel → Channel
disable_all c = record c { reads = false; writes = false; added_to_loop = true }

-- Followed by the poller's `removeChannel`.
unfoldable pub remove : Channel → Result Channel
unfolding is_none_event
remove c = check (is_none_event c) >> ok (record c { added_to_loop = false })

unfoldable pub tie : Channel → Channel
tie c = record c { tied = true }

unfoldable pub set_revents : Channel → ℕ → Channel
set_revents c r = record c { revents = r }

unfoldable pub set_index : Channel → Option ℕ → Channel
set_index c i = record c { index = i }

unfoldable pub do_not_log_hup : Channel → Channel
do_not_log_hup c = record c { log_hup = false }

-- A test of `revents_ & bits`.
abbrev pub has : ℕ → ℕ → Bool
has r bits = not (bit_and r bits == 0)

pub data Call : Type 0 where
  close error read write : Call

abbrev pub call_if : Bool → Bool → Call → List Call
call_if test is_set call = if test && is_set then call ∷ [] else []

-- The callbacks called, in order. What they do is their owner's.
pub handle_event_with_guard : Channel → List Call
handle_event_with_guard c =
    call_if (has c.revents pollhup && not (has c.revents pollin)) c.callbacks.on_close close
    ++ (call_if (has c.revents (bit_or pollerr pollnval)) c.callbacks.on_error error
        ++ (call_if (has c.revents (bit_or (bit_or pollin pollpri) pollrdhup)) c.callbacks.on_read
              read
            ++ call_if (has c.revents pollout) c.callbacks.on_write write))

-- `handleEvent`, given whether the tied owner still lives.
pub handle_event : Channel → Bool → List Call
unfolding handle_event_with_guard
handle_event c owner_lives =
    if c.tied
    then (if owner_lives then handle_event_with_guard c else [])
    else handle_event_with_guard c
