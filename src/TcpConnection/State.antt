-- ===== src/TcpConnection/State.antt =====
-- TcpConnection.h: the fields of a connection, and what the kernel and the owner see of it.
use event_loop.Prelude.{ℕ, Bool, true, false, List, [], ◌∷◌, ◌++◌}
use event_loop.Buffer.{Buffer}
use event_loop.Channel.{Channel}

pub data State : Type 0 where
  disconnected connecting connected disconnecting : State

-- The errors that `sendInLoop` tells apart: EWOULDBLOCK, EPIPE or ECONNRESET, and the others.
pub data Errno : Type 0 where
  would_block broken other_error : Errno

-- The kernel's answer to a write: it took the first `n` bytes, or all of them where there are fewer, as
-- write(2) never takes more than it is given; or it refused.
pub data Write : Type 0 where
  wrote : ℕ → Write
  refused : Errno → Write

-- What is called, or queued in the loop.
pub data Call : Type 0 where
  connection_callback close_callback message_callback write_complete : Call
  high_water : ℕ → Call
  shutdown_write log_error close_in_loop : Call

pub record TcpConnection : Type 0 where
  pub state : State
  pub reading : Bool
  pub channel : Channel
  pub wants_write_complete : Bool
  pub wants_high_water : Bool
  pub high_water_mark : ℕ
  pub input : Buffer
  pub output : Buffer
  pub wire : List ℕ
  pub calls : List Call
  pub queue : List Call

abbrev pub call : TcpConnection → Call → TcpConnection
call c x = record c { calls = c.calls ++ x ∷ [] }

abbrev pub enqueue : TcpConnection → Call → TcpConnection
enqueue c x = record c { queue = c.queue ++ x ∷ [] }

abbrev pub is_connected : State → Bool
is_connected connected = true
is_connected disconnected = false
is_connected connecting = false
is_connected disconnecting = false

abbrev pub is_disconnected : State → Bool
is_disconnected disconnected = true
is_disconnected connected = false
is_disconnected connecting = false
is_disconnected disconnecting = false

abbrev pub is_disconnecting : State → Bool
is_disconnecting disconnecting = true
is_disconnecting connected = false
is_disconnecting connecting = false
is_disconnecting disconnected = false

abbrev pub is_connecting : State → Bool
is_connecting connecting = true
is_connecting connected = false
is_connecting disconnected = false
is_connecting disconnecting = false
