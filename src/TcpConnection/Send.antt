-- ===== src/TcpConnection/Send.antt =====
-- TcpConnection.cpp: sending.
use event_loop.Prelude.{
  ℕ, ◌+◌, ◌-◌, Bool, true, false, not, ◌&&◌, List, ◌++◌, length, take, drop, ltb, leb, ◌==◌,
  if◌then◌else◌, Result, ok, ◌>>=◌,
}
use event_loop.Buffer.{Buffer, readable_bytes, contents, append, retrieve_all}
use event_loop.Channel
use event_loop.Channel.{Channel}
use event_loop.TcpConnection.State.{
  would_block, broken, other_error, Write, wrote, refused, write_complete, high_water,
  TcpConnection, enqueue, is_connected, is_disconnected,
}

-- What the direct write of `sendInLoop` leaves: the bytes that remain, and whether the error is fatal.
pub record Attempt : Type 0 where
  pub conn : TcpConnection
  pub remaining : List ℕ
  pub fault_error : Bool

unfoldable pub direct_write : TcpConnection → List ℕ → Write → Attempt
direct_write c bytes (wrote n) =
    let sent : TcpConnection = record c { wire = c.wire ++ take n bytes } in
    record {
      conn =
          if (length bytes - n == 0) && c.wants_write_complete
          then enqueue sent write_complete
          else sent;
      remaining = drop n bytes;
      fault_error = false;
    }
direct_write c bytes (refused broken) = record { conn = c; remaining = bytes; fault_error = true }
direct_write c bytes (refused would_block) = record {
  conn = c;
  remaining = bytes;
  fault_error = false;
}
direct_write c bytes (refused other_error) = record {
  conn = c;
  remaining = bytes;
  fault_error = false;
}

-- The direct write is tried when nothing waits to be written.
unfoldable pub attempt : TcpConnection → List ℕ → Write → Attempt
unfolding Channel.is_writing
attempt c bytes answer =
    if not (Channel.is_writing c.channel) && (readable_bytes c.output == 0)
    then direct_write c bytes answer
    else record { conn = c; remaining = bytes; fault_error = false }

-- The high-water callback is queued where the waiting bytes reach the mark.
unfoldable pub note_high_water : TcpConnection → ℕ → TcpConnection
note_high_water c remaining =
    let old_len = readable_bytes c.output in
    if leb c.high_water_mark (old_len + remaining)
      && ltb old_len c.high_water_mark
      && c.wants_high_water
    then enqueue c (high_water (old_len + remaining))
    else c

abbrev pub watch_writing : Channel → Channel
watch_writing ch = if Channel.is_writing ch then ch else Channel.enable_writing ch

-- What remains goes to the output buffer, and the channel is watched for writing.
unfoldable pub buffer_rest : TcpConnection → List ℕ → Result TcpConnection
buffer_rest c rest = do
  let noted = note_high_water c (length rest)
  filled ← append noted.output rest
  ok (record noted { output = filled; channel = watch_writing noted.channel })

unfoldable pub send_in_loop : TcpConnection → List ℕ → Write → Result TcpConnection
send_in_loop c bytes answer =
    if is_disconnected c.state
    then ok c
    else (let a = attempt c bytes answer in
        if not a.fault_error && ltb 0 (length a.remaining)
        then buffer_rest a.conn a.remaining
        else ok a.conn)

-- `send` in the loop's thread.
unfoldable pub send : TcpConnection → List ℕ → Write → Result TcpConnection
send c message answer = if is_connected c.state then send_in_loop c message answer else ok c

-- `send` of a buffer, which it empties.
unfoldable pub send_buffer : TcpConnection → Buffer → Write → Result (TcpConnection × Buffer)
send_buffer c buf answer =
    if is_connected c.state
    then send_in_loop c (contents buf) answer >>= (λ d. ok (d, retrieve_all buf))
    else ok (c, buf)
