-- ===== src/SocketsOps.antt =====
-- src/SocketsOps.cpp: accepting a connection, with what happens to `errno` on the way. What accept(2) answers is an
-- argument; so is what fcntl(2) and printf(3) leave in `errno`.
use event_loop.Prelude.{ℕ, Option, none, some}

-- The errors that `accept` and its caller tell apart.
pub data Errno : Type 0 where
  eagain econnaborted eintr eproto eperm emfile : Errno
  ebadf efault einval enfile enobufs enomem enotsock eopnotsupp : Errno
  unknown : ℕ → Errno

pub data Accepted : Type 0 where
  accepted : ℕ → Accepted
  refused : Errno → Accepted

-- A descriptor, or none where the number is negative.
abbrev pub descriptor : Accepted → Option ℕ
descriptor (accepted fd) = some fd
descriptor (refused e) = none

-- `fcntl` is what the calls on a descriptor leave in `errno`, given what it held; `print` is what printf leaves.
module _ (fcntl : Option ℕ → Errno → Errno) (print : Errno → Errno) where
  unfoldable pub set_non_block_and_close_on_exec : Option ℕ → Errno → Errno
  set_non_block_and_close_on_exec fd errno = fcntl fd errno

  -- The switch: the errors that are expected are put back, the others printed.
  unfoldable pub report : Errno → Errno
  report eagain = eagain
  report econnaborted = econnaborted
  report eintr = eintr
  report eproto = eproto
  report eperm = eperm
  report emfile = emfile
  report e = print (print e)

  -- The descriptor, and `errno`, which held `before`.
  unfoldable pub accept : Accepted → Errno → Option ℕ × Errno
  unfolding set_non_block_and_close_on_exec report
  accept (accepted fd) before = (some fd, set_non_block_and_close_on_exec (some fd) before)
  accept (refused e) before = (none, report (set_non_block_and_close_on_exec none e))
