-- ===== src/TcpConnection/Events.antt =====
-- TcpConnection.cpp: what a readable and a writable socket does.
use event_loop.Prelude.{[], ◌∷◌, ◌++◌, take, ltb, ◌==◌, if◌then◌else◌, Result, ok, ◌>>=◌}
use event_loop.Buffer.{readable_bytes, contents, retrieve}
use event_loop.Buffer.ReadFd.{Readv, failed, got, read_fd}
use event_loop.Channel
use event_loop.Channel.{Channel}
use event_loop.TcpConnection.Close.{handle_close, shutdown_in_loop}
use event_loop.TcpConnection.State.{
  Write, wrote, refused, message_callback, write_complete, log_error, TcpConnection, call, enqueue,
  is_disconnecting,
}

unfoldable pub handle_read : TcpConnection → Readv → Result TcpConnection
unfolding handle_close
handle_read c answer = do
  r ← read_fd c.input answer
  let c' : TcpConnection = record c { input = r.0 }
  elim r.1 [
    | failed errno ↦ ok (call c' log_error)
    | got [] ↦ handle_close c'
    | got (x ∷ xs) ↦ ok (call c' message_callback)
  ]

-- The source takes 0 bytes off the output buffer after a write, not the number written.
unfoldable pub handle_write : TcpConnection → Write → Result TcpConnection
unfolding Channel.is_writing Channel.disable_writing shutdown_in_loop
handle_write c answer =
    if Channel.is_writing c.channel
    then elim answer [
      | refused e ↦ ok c
      | wrote n ↦
          if ltb 0 n
          then retrieve c.output 0 >>= (λ left.
            let sent : TcpConnection = record c {
              wire = c.wire ++ take n (contents c.output);
              output = left;
            } in
            if readable_bytes left == 0
            then (let quiet : TcpConnection = record sent {
              channel = Channel.disable_writing sent.channel;
            } in
                let told : TcpConnection =
                  if quiet.wants_write_complete then enqueue quiet write_complete else quiet in
                ok (if is_disconnecting told.state then shutdown_in_loop told else told))
            else ok sent)
          else ok c
    ]
    else ok c
