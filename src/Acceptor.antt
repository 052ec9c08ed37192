-- ===== src/Acceptor.antt =====
-- src/Acceptor.h and src/Acceptor.cpp: the listening socket, with a spare descriptor for when all are in use.
-- `opened`, `closed` and `passed` note the descriptors that were opened, closed, and given to the owner's
-- callback, the last first.
pub mod Descriptors
mod Exhausted
mod Tests
use event_loop.Prelude.{
  ℕ, Bool, true, false, Option, none, some, List, [], ◌∷◌, Result, ok, check, ◌>>=◌, ◌>>◌,
  if◌then◌else◌,
}
use event_loop.Channel
use event_loop.Channel.{Channel, new_channel, enable_reading, disable_all}
use event_loop.SocketsOps.{Errno, emfile, Accepted, descriptor, accept}

pub record Acceptor : Type 0 where
  pub channel : Channel
  pub has_callback : Bool
  pub listening : Bool
  pub idle_fd : Option ℕ
  pub opened : List ℕ
  pub closed : List ℕ
  pub passed : List ℕ

-- With the listening socket, and the spare descriptor that was opened.
unfoldable pub new_acceptor : ℕ → ℕ → Acceptor
unfolding new_channel
new_acceptor sockfd idle = record {
  channel = record (new_channel sockfd) {
    callbacks = record { on_read = true; on_write = false; on_close = false; on_error = false };
  };
  has_callback = false;
  listening = false;
  idle_fd = some idle;
  opened = idle ∷ [];
  closed = [];
  passed = [];
}

unfoldable pub listen : Acceptor → Acceptor
unfolding enable_reading
listen a = record a { listening = true; channel = enable_reading a.channel }

-- `close`, which does nothing to a negative number; and the number of what was opened, if it was.
abbrev pub close_all : Option ℕ → List ℕ → List ℕ
close_all none closed = closed
close_all (some fd) closed = fd ∷ closed

abbrev pub is_emfile : Errno → Bool
is_emfile emfile = true
is_emfile _ = false

-- The waiting connection is taken with the spare descriptor's place, and closed: what accept(2) and open(2) give
-- are arguments.
unfoldable pub shed : Acceptor → Accepted → Option ℕ → Acceptor
shed a second reopened = record a {
  closed = close_all (descriptor second) (close_all a.idle_fd a.closed);
  idle_fd = reopened;
  opened = close_all reopened (close_all (descriptor second) a.opened);
}

unfoldable pub give : Acceptor → ℕ → Acceptor
give a fd =
    let b = record a { opened = fd ∷ a.opened } in
    if b.has_callback
    then record b { passed = fd ∷ b.passed }
    else record b { closed = fd ∷ b.closed }

module _ (fcntl : Option ℕ → Errno → Errno) (print : Errno → Errno) where
  unfoldable pub handle_read : Acceptor → Errno → Accepted → Accepted → Option ℕ → Acceptor
  unfolding shed give
  handle_read a before first second reopened =
      let r = accept fcntl print first before in
      elim r.0 [ some fd ↦ give a fd | none ↦ if is_emfile r.1 then shed a second reopened else a ]

-- The destructor, but for that of the listening socket.
unfoldable pub end_acceptor : Acceptor → Result Acceptor
unfolding disable_all Channel.remove
end_acceptor a = Channel.remove (disable_all a.channel) >>= λ ch.
    ok (record a { channel = ch; closed = close_all a.idle_fd a.closed; idle_fd = none })
