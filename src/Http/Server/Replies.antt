-- ===== src/Http/Server/Replies.antt =====
-- HttpServer.cpp: what `onRequest` sends.
use event_loop.Prelude.{
  ℕ, ◌+◌, ◌≤◌, ◌<◌, ◌≡◌, ◌≢◌, ◌⊎◌, inl, inr, sym, ap, ap₂, subst, ◌∙◌, Bool, true, false, List,
  ◌++◌, length, ok, arith, if◌then◌else◌,
}
use event_loop.Buffer.{Buffer, max_size, contents, retrieve_all}
use event_loop.Buffer.Bounds.{IsValid}
use event_loop.Buffer.Shrink.{fresh, length-fresh, fresh-IsValid, new_buffer-eq}
use event_loop.Channel
use event_loop.Channel.{Channel}
use event_loop.Http.Request.{HttpRequest}
use event_loop.Http.Response.{HttpResponse, append_to_buffer}
use event_loop.Http.Response.Printing.{response_text, IsShort, append_to_buffer_lem}
use event_loop.Http.Server.{reply, on_request}
use event_loop.TcpConnection.State.{
  is_connected, disconnected, connected, disconnecting, TcpConnection, Write, refused, broken,
}
use event_loop.TcpConnection.Send.{attempt, send_in_loop, send_buffer}
use event_loop.TcpConnection.Close.{shutdown, shutdown_in_loop}
use event_loop.TcpConnection.Stream.{stream, IsWatched, send_in_loop_lem}
use event_loop.TcpConnection.Closing.{attempt-state, buffer_rest-state}

send_in_loop-state :
    (c : TcpConnection) (bytes : List ℕ) (answer : Write) {d : TcpConnection}
    → send_in_loop c bytes answer ≡ ok d
    → d.state ≡ c.state
unfolding send_in_loop
send_in_loop-state c bytes answer {d} e =
    let a = attempt c bytes answer in
    ground (arith, attempt-state c bytes answer, buffer_rest-state a.conn a.remaining {d = d})

-- `shutdown` of a connected connection touches neither its bytes nor its channel.
shutdown_lem :
    (c : TcpConnection)
    → c.state ≡ connected
    → ((shutdown c).output ≡ c.output)
      × ((shutdown c).wire ≡ c.wire)
      × ((shutdown c).channel ≡ c.channel)
      × ((shutdown c).state ≡ disconnecting)
unfolding shutdown shutdown_in_loop Channel.is_writing
shutdown_lem c e = ground arith

-- What a connection has sent or will send, and that it is sound.
pub record Replied (c : TcpConnection) (text : List ℕ) (answer : Write) (d : TcpConnection)
    : Type 0 where
  pub valid : IsValid d.output
  pub watched : IsWatched d
  pub streamed : (stream d ≡ stream c ++ text) ⊎ ((answer ≡ refused broken) × (stream d ≡ stream c))

shut-Replied :
    (c : TcpConnection) (text : List ℕ) (answer : Write) (d : TcpConnection)
    → d.state ≡ connected
    → Replied c text answer d
    → Replied c text answer (shutdown d)
shut-Replied c text answer d e r =
    let (o, w, ch, _) = shutdown_lem d e in
    let same : stream (shutdown d) ≡ stream d = ap₂ ◌++◌ w (ap (λ (b : Buffer). contents b) o) in
    record {
      valid = subst IsValid (sym o) r.valid;
      watched = λ h.
          ap (λ (x : Channel). x.writes) ch
          ∙ r.watched (subst (λ (b : Buffer). 0 < length (contents b)) o h);
      streamed = elim r.streamed [
        | inl sent ↦ inl (same ∙ sent)
        | inr (why, kept) ↦ inr (why, same ∙ kept)
      ];
    }

send_buffer-eq :
    (c : TcpConnection) (buf : Buffer) (answer : Write) {d : TcpConnection}
    → c.state ≡ connected
    → send_in_loop c (contents buf) answer ≡ ok d
    → send_buffer c buf answer ≡ ok (d, retrieve_all buf)
unfolding send_buffer
send_buffer-eq c buf answer up e =
    let is : is_connected c.state ≡ true = ap is_connected up in rw (is, e)

-- The connection that ends the answer.
abbrev ends : Bool → TcpConnection → TcpConnection
ends closes d = if closes then shutdown d else d

ends-Replied :
    (closes : Bool) (c : TcpConnection) (text : List ℕ) (answer : Write) (d : TcpConnection)
    → d.state ≡ connected
    → Replied c text answer d
    → Replied c text answer (ends closes d)
      × ((ends closes d).state ≡ (if closes then disconnecting else connected))
ends-Replied true c text answer d up r = (shut-Replied c text answer d up r, (shutdown_lem d up).3)
ends-Replied false c text answer d up r = (r, up)

on_request-eq :
    (callback : HttpRequest → HttpResponse → HttpResponse) (c : TcpConnection)
    (request : HttpRequest) (answer : Write) {d : TcpConnection} {filled rest : Buffer}
    → append_to_buffer (reply callback request) fresh ≡ ok filled
    → send_buffer c filled answer ≡ ok (d, rest)
    → on_request callback c request answer ≡ ok (ends (reply callback request).close_connection d)
unfolding on_request
on_request-eq callback c request answer e e' = rw (new_buffer-eq, e, e')

is_up : connected ≢ disconnected
is_up e = cc

-- In a connection that is connected, with a valid output buffer, watched for writing if bytes wait, for a
-- reply whose strings are shorter than 2 ^ 31 bytes and whose text a new buffer and the output buffer have
-- room to grow by: `onRequest` succeeds. The text of the reply is behind the bytes written and
-- waiting, unless the write fails for good; the output buffer stays valid and the channel watched while
-- bytes wait; and the connection shuts down exactly if the reply closes it.
pub on_request_lem :
    (callback : HttpRequest → HttpResponse → HttpResponse) (c : TcpConnection)
    (request : HttpRequest) (answer : Write)
    → c.state ≡ connected
    → IsValid c.output
    → IsWatched c
    → IsShort (reply callback request)
    → 1032 + length (response_text (reply callback request)) ≤ max_size
    → c.output.writer_index + length (response_text (reply callback request)) ≤ max_size
    → (d : TcpConnection) × (on_request callback c request answer ≡ ok d)
      × Replied c (response_text (reply callback request)) answer d
      × (d.state ≡ (if (reply callback request).close_connection then disconnecting else connected))
on_request_lem callback c request answer up v watched body room small =
    let response = reply callback request in
    let text = response_text response in
    let (filled, e, a) =
      append_to_buffer_lem response fresh body fresh-IsValid (omega (arith, length-fresh)) in
    let (d, e', valid, w, s) =
      send_in_loop_lem c (contents filled) answer (λ down. is_up (sym up ∙ down)) v
        (omega (arith, ap length a.joined)) watched in
    let r : Replied c (contents filled) answer d = record {
      valid = valid;
      watched = w;
      streamed = s;
    } in
    let (r', state) =
      ends-Replied response.close_connection c text answer d
        (send_in_loop-state c (contents filled) answer e' ∙ up)
        (subst (λ bytes. Replied c bytes answer d) a.joined r) in
    (_, on_request-eq callback c request answer e (send_buffer-eq c filled answer up e'), r', state)
