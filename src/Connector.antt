-- ===== src/Connector.antt =====
-- src/Connector.h and src/Connector.cpp: one socket after another, until a connection is made. What the
-- kernel answers is an argument: the socket of the next attempt, what connect(2) said, and the pending
-- error of the socket. `tasks` holds the functors queued in the loop; `opened`, `closed` and `given` note
-- the sockets created, closed and passed to the owner, the last first; `delays` those of the retries.
pub mod Backoff
pub mod Sockets
pub mod Life
mod Tests
use event_loop.Prelude.{
  ℕ, ◌*◌, min, Bool, true, false, Option, none, some, List, [], ◌∷◌, ◌++◌, ◌==◌, if◌then◌else◌,
  Result, ok, err, check, undefined_access, ◌>>=◌, ◌>>◌,
}
use event_loop.Channel
use event_loop.Channel.{Channel, new_channel, enable_writing, disable_all}

abbrev pub max_retry_delay : ℕ
max_retry_delay = 30 * 1000

abbrev pub init_retry_delay : ℕ
init_retry_delay = 500

pub data State : Type 0 where
  disconnected connecting connected : State

-- What `errno` may be after connect(2).
pub data Errno : Type 0 where
  success einprogress eintr eisconn : Errno
  eagain eaddrinuse eaddrnotavail econnrefused enetunreach : Errno
  eacces eperm eafnosupport ealready ebadf efault enotsock : Errno
  unexpected : ℕ → Errno

pub data Task : Type 0 where
  start_task stop_task reset_task : Task

pub record Connector : Type 0 where
  pub wanted : Bool
  pub state : State
  pub channel : Option Channel
  pub retry_delay : ℕ
  pub tasks : List Task
  pub opened : List ℕ
  pub closed : List ℕ
  pub given : List ℕ
  pub delays : List ℕ

abbrev pub new_connector : Connector
new_connector = record {
  wanted = false;
  state = disconnected;
  channel = none;
  retry_delay = init_retry_delay;
  tasks = [];
  opened = [];
  closed = [];
  given = [];
  delays = [];
}

unfoldable pub retry : Connector → ℕ → Connector
retry c sockfd =
    let c' = record c { closed = sockfd ∷ c.closed; state = disconnected } in
    if c'.wanted
    then record c' {
      delays = c'.delays ++ c'.retry_delay ∷ [];
      retry_delay = min (c'.retry_delay * 2) max_retry_delay;
    }
    else c'

-- A new channel, with its callbacks.
unfoldable pub socket_channel : ℕ → Channel
unfolding enable_writing new_channel
socket_channel sockfd = enable_writing (record (new_channel sockfd) {
  callbacks = record { on_read = false; on_write = true; on_close = false; on_error = true };
})

abbrev pub is_empty : Option Channel → Bool
is_empty none = true
is_empty (some ch) = false

-- `channel_->`.
abbrev pub value : Option Channel → Result Channel
value none = err undefined_access
value (some ch) = ok ch

unfoldable pub connecting_on : Connector → ℕ → Result Connector
unfolding socket_channel
connecting_on c sockfd =
    check (is_empty c.channel)
    >> ok (record c { state = connecting; channel = some (socket_channel sockfd) })

-- The switch of `connect`.
unfoldable pub dispatch : Connector → ℕ → Errno → Result Connector
unfolding connecting_on retry
dispatch c sockfd success = connecting_on c sockfd
dispatch c sockfd einprogress = connecting_on c sockfd
dispatch c sockfd eintr = connecting_on c sockfd
dispatch c sockfd eisconn = connecting_on c sockfd
dispatch c sockfd eagain = ok (retry c sockfd)
dispatch c sockfd eaddrinuse = ok (retry c sockfd)
dispatch c sockfd eaddrnotavail = ok (retry c sockfd)
dispatch c sockfd econnrefused = ok (retry c sockfd)
dispatch c sockfd enetunreach = ok (retry c sockfd)
dispatch c sockfd _ = ok (record c { closed = sockfd ∷ c.closed })

unfoldable pub connect : Connector → ℕ → Errno → Result Connector
unfolding dispatch
connect c sockfd errno = dispatch (record c { opened = sockfd ∷ c.opened }) sockfd errno

abbrev pub is_disconnected : State → Bool
is_disconnected disconnected = true
is_disconnected connecting = false
is_disconnected connected = false

abbrev pub is_connecting : State → Bool
is_connecting disconnected = false
is_connecting connecting = true
is_connecting connected = false

unfoldable pub start_in_loop : Connector → ℕ → Errno → Result Connector
unfolding connect
start_in_loop c sockfd errno =
    check (is_disconnected c.state) >> (if c.wanted then connect c sockfd errno else ok c)

unfoldable pub start : Bool → Connector → ℕ → Errno → Result Connector
unfolding start_in_loop
start in_loop_thread c sockfd errno =
    let c' = record c { wanted = true } in
    if in_loop_thread
    then start_in_loop c' sockfd errno
    else ok (record c' { tasks = c'.tasks ++ start_task ∷ [] })

unfoldable pub stop : Connector → Connector
stop c = record c { wanted = false; tasks = c.tasks ++ stop_task ∷ [] }

unfoldable pub restart : Connector → ℕ → Errno → Result Connector
unfolding start_in_loop
restart c sockfd errno =
    start_in_loop (record c { state = disconnected; retry_delay = init_retry_delay; wanted = true })
      sockfd errno

-- The connector, and the socket of its channel.
unfoldable pub remove_and_reset_channel : Connector → Result (Connector × ℕ)
unfolding disable_all Channel.remove
remove_and_reset_channel c = value c.channel >>= λ ch. Channel.remove (disable_all ch) >>= λ ch'.
    ok (record c { channel = some ch'; tasks = c.tasks ++ reset_task ∷ [] }, ch'.fd)

unfoldable pub reset_channel : Connector → Connector
reset_channel c = record c { channel = none }

unfoldable pub stop_in_loop : Connector → Result Connector
unfolding remove_and_reset_channel retry
stop_in_loop c =
    if is_connecting c.state
    then (remove_and_reset_channel (record c { state = disconnected }) >>= λ r. ok (retry r.0 r.1))
    else ok c

-- The connection is made.
unfoldable pub complete : Connector → ℕ → Connector
complete c sockfd =
    let c' = record c { state = connected } in
    if c'.wanted
    then record c' { given = sockfd ∷ c'.given }
    else record c' { closed = sockfd ∷ c'.closed }

unfoldable pub handle_write : Connector → ℕ → Bool → Result Connector
unfolding remove_and_reset_channel retry complete
handle_write c error self_connect =
    if is_connecting c.state
    then (remove_and_reset_channel c >>= λ r. ok (
        if error == 0
        then (if self_connect then retry r.0 r.1 else complete r.0 r.1)
        else retry r.0 r.1))
    else check (is_disconnected c.state) >> ok c

unfoldable pub handle_error : Connector → Result Connector
unfolding remove_and_reset_channel retry
handle_error c =
    if is_connecting c.state then (remove_and_reset_channel c >>= λ r. ok (retry r.0 r.1)) else ok c

-- The loop calls a functor that was queued.
unfoldable pub run_task : Connector → Task → ℕ → Errno → Result Connector
unfolding start_in_loop stop_in_loop reset_channel
run_task c start_task sockfd errno = start_in_loop c sockfd errno
run_task c stop_task sockfd errno = stop_in_loop c
run_task c reset_task sockfd errno = ok (reset_channel c)
