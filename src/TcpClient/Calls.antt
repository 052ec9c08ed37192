-- ===== src/TcpClient/Calls.antt =====
-- TcpConnection.cpp: what an event does to a connection, as far as its owner sees it.
use event_loop.Prelude.{
  ℕ, suc, ◌+◌, ◌≡◌, ◌⊎◌, inl, inr, false, List, [], ◌∷◌, ◌++◌, ok, arith, Result-cases,
}
use event_loop.Buffer.ReadFd.{Readv, failed, got, read_fd}
use event_loop.Channel
use event_loop.TcpConnection.State.{
  TcpConnection, disconnected, Write, wrote, refused, would_block, broken, other_error, Call,
  connection_callback, close_callback, message_callback, log_error, shutdown_write, disconnecting,
}
use event_loop.TcpConnection.Send.{
  send, send_in_loop, attempt, direct_write, buffer_rest, note_high_water,
}
use event_loop.TcpConnection.Close.{
  shutdown, shutdown_in_loop, force_close, force_close_with_delay, force_close_in_loop,
  handle_close, start_read_in_loop,
}
use event_loop.TcpConnection.Events.{handle_read, handle_write}
use event_loop.TcpConnection.Machine.{
  Event, sends, shuts_down, forces_close, delays_close, closes_in_loop, starts_read, reads, writes,
  handle, close_calls, close_count,
}

pub close_calls-append :
    (xs ys : List Call) → close_calls (xs ++ ys) ≡ close_calls xs + close_calls ys
close_calls-append [] ys = omega arith
close_calls-append (x ∷ xs) ys = omega (arith, close_calls-append xs ys)

-- A connection that is closed and watched for nothing.
abbrev pub IsShut : TcpConnection → Type 0
IsShut c = (c.state ≡ disconnected) × (c.channel.reads ≡ false) × (c.channel.writes ≡ false)

abbrev pub Called : TcpConnection → TcpConnection → Type 0
Called c d =
    (close_calls d.calls ≡ close_calls c.calls)
    ⊎ ((close_calls d.calls ≡ suc (close_calls c.calls)) × IsShut d)

attempt-calls :
    (c : TcpConnection) (bytes : List ℕ) (answer : Write)
    → (attempt c bytes answer).conn.calls ≡ c.calls
unfolding attempt direct_write
attempt-calls c bytes (wrote n) = ground arith
attempt-calls c bytes (refused would_block) = ground arith
attempt-calls c bytes (refused broken) = ground arith
attempt-calls c bytes (refused other_error) = ground arith

buffer_rest-calls :
    (c : TcpConnection) (rest : List ℕ) {d : TcpConnection}
    → buffer_rest c rest ≡ ok d
    → d.calls ≡ c.calls
unfolding buffer_rest note_high_water
buffer_rest-calls c rest e = ground arith

send-calls :
    (c : TcpConnection) (bytes : List ℕ) (answer : Write) {d : TcpConnection}
    → send c bytes answer ≡ ok d
    → d.calls ≡ c.calls
unfolding send send_in_loop
send-calls c bytes answer {d} e =
    let a = attempt c bytes answer in
    ground (arith, attempt-calls c bytes answer, buffer_rest-calls a.conn a.remaining {d = d})

module _ (c : TcpConnection) where
  added : (x : Call) → close_calls (c.calls ++ x ∷ []) ≡ close_calls c.calls + close_count x
  added x = omega (arith, close_calls-append c.calls (x ∷ []))

  pub shutdown_in_loop-calls : close_calls (shutdown_in_loop c).calls ≡ close_calls c.calls
  unfolding shutdown_in_loop
  shutdown_in_loop-calls = ground (arith, added shutdown_write)

  pub handle_close-Called : {d : TcpConnection} → handle_close c ≡ ok d → Called c d
  unfolding handle_close
  handle_close-Called h = ground (
    arith,
    close_calls-append (c.calls ++ connection_callback ∷ []) (close_callback ∷ []),
    added connection_callback,
  )

handle_read-Called :
    (c : TcpConnection) (answer : Readv) {d : TcpConnection}
    → handle_read c answer ≡ ok d
    → Called c d
unfolding handle_read
handle_read-Called c answer {d} h = elim (Result-cases (read_fd c.input answer)) [
  | inl ((b, failed n), e) ↦ ground (arith, e, added c log_error)
  | inl ((b, got []), e) ↦ handle_close-Called (record c { input = b }) {d = d} (ground (arith, e))
  | inl ((b, got (x ∷ xs)), e) ↦ ground (arith, e, added c message_callback)
  | inr (f, e) ↦ absurd (ground (arith, e))
]

handle_write-calls :
    (c : TcpConnection) (answer : Write) {d : TcpConnection}
    → handle_write c answer ≡ ok d
    → close_calls d.calls ≡ close_calls c.calls
unfolding handle_write shutdown_in_loop Channel.disable_writing
handle_write-calls c (wrote n) h = ground (arith, added c shutdown_write)
handle_write-calls c (refused x) h = ground arith

-- An event calls the close callback once, of a connection that it closed, or not at all.
pub handle-Called :
    (c : TcpConnection) (e : Event) {d : TcpConnection} → handle c e ≡ ok d → Called c d
unfolding handle shutdown force_close force_close_with_delay force_close_in_loop start_read_in_loop
handle-Called c (sends bytes answer) h = ground (arith, send-calls c bytes answer h)
handle-Called c shuts_down h =
    ground (arith, shutdown_in_loop-calls (record c { state = disconnecting }))
handle-Called c forces_close h = ground arith
handle-Called c delays_close h = ground arith
handle-Called c closes_in_loop {d} h = ground (arith, handle_close-Called c {d = d})
handle-Called c starts_read h = ground arith
handle-Called c (reads answer) h = handle_read-Called c answer h
handle-Called c (writes answer) h = inl (handle_write-calls c answer h)
