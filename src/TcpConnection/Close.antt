-- ===== src/TcpConnection/Close.antt =====
-- TcpConnection.cpp: opening, shutting down and closing.
use event_loop.Prelude.{Bool, true, false, not, ◌||◌, if◌then◌else◌, Result, ok, check, ◌>>=◌, ◌>>◌}
use event_loop.Channel
use event_loop.Channel.{Channel}
use event_loop.TcpConnection.State.{
  disconnected, connected, disconnecting, connection_callback, close_callback, shutdown_write,
  close_in_loop, TcpConnection, call, enqueue, is_connected, is_disconnected, is_disconnecting,
  is_connecting,
}

unfoldable pub shutdown_in_loop : TcpConnection → TcpConnection
unfolding Channel.is_writing
shutdown_in_loop c = if Channel.is_writing c.channel then c else call c shutdown_write

-- In the loop's thread `runInLoop` calls at once.
unfoldable pub shutdown : TcpConnection → TcpConnection
unfolding shutdown_in_loop
shutdown c =
    if is_connected c.state then shutdown_in_loop (record c { state = disconnecting }) else c

unfoldable pub force_close : TcpConnection → TcpConnection
force_close c =
    if is_connected c.state || is_disconnected c.state
    then enqueue (record c { state = disconnecting }) close_in_loop
    else c

-- The timer that it starts will call `force_close`.
unfoldable pub force_close_with_delay : TcpConnection → TcpConnection × Bool
force_close_with_delay c =
    if is_connected c.state || is_disconnecting c.state
    then (record c { state = disconnecting }, true)
    else (c, false)

unfoldable pub handle_close : TcpConnection → Result TcpConnection
unfolding Channel.disable_all
handle_close c =
    check (is_connected c.state || is_disconnecting c.state)
    >> ok (
        call
          (call (record c { state = disconnected; channel = Channel.disable_all c.channel })
            connection_callback)
          close_callback)

unfoldable pub force_close_in_loop : TcpConnection → Result TcpConnection
unfolding handle_close
force_close_in_loop c =
    if is_connected c.state || is_disconnecting c.state then handle_close c else ok c

unfoldable pub start_read_in_loop : TcpConnection → TcpConnection
unfolding Channel.is_reading Channel.enable_reading
start_read_in_loop c =
    if not c.reading || not (Channel.is_reading c.channel)
    then record c { channel = Channel.enable_reading c.channel; reading = true }
    else c

unfoldable pub connect_established : TcpConnection → Result TcpConnection
unfolding Channel.enable_reading Channel.tie
connect_established c =
    check (is_connecting c.state)
    >> ok (
        call
          (record c { state = connected; channel = Channel.enable_reading (Channel.tie c.channel) })
          connection_callback)

unfoldable pub connect_destroyed : TcpConnection → Result TcpConnection
unfolding Channel.disable_all Channel.remove
connect_destroyed c =
    let c' : TcpConnection =
      if is_connected c.state
      then call (record c { state = disconnected; channel = Channel.disable_all c.channel })
          connection_callback
      else c in
    Channel.remove c'.channel >>= (λ ch. ok (record c' { channel = ch }))
