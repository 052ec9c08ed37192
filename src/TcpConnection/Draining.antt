-- ===== src/TcpConnection/Draining.antt =====
-- TcpConnection.cpp: `handleWrite` takes nothing off the output buffer.
use event_loop.Prelude.{
  ℕ, ◌+◌, ◌<◌, ◌≡◌, sym, ap, ◌∙◌, true, List, [], ◌∷◌, ◌++◌, append_assoc, append-nil, length, take,
  Result, ok, ◌>>=◌, arith,
}
use event_loop.Buffer.{Buffer, contents, retrieve}
use event_loop.Buffer.Bounds.{IsValid, length-contents, readable_bytes-eq}
use event_loop.Buffer.Consume.{retrieve-eq}
use event_loop.TcpConnection.State.{TcpConnection, wrote}
use event_loop.TcpConnection.Events.{handle_write}

-- Writable events in a row, with the number of bytes that each writes.
pub write_events : TcpConnection → List ℕ → Result TcpConnection
write_events c [] = ok c
write_events c (n ∷ ns) = handle_write c (wrote n) >>= (λ d. write_events d ns)

-- What the events send, each from the start of the bytes that wait.
pub resent : List ℕ → List ℕ → List ℕ
resent bytes [] = []
resent bytes (n ∷ ns) = take n bytes ++ resent bytes ns

abbrev pub ArePositive : List ℕ → Type 0
ArePositive [] = Unit {0}
ArePositive (n ∷ ns) = (0 < n) × ArePositive ns

retrieve_nothing : {b : Buffer} → IsValid b → 0 < length (contents b) → retrieve b 0 ≡ ok b
retrieve_nothing {b} v h =
    retrieve-eq 0 v (omega (arith, length-contents v))
    ∙ ap (λ i. ok (record b { reader_index = i })) {x = b.reader_index + 0} (omega arith)

handle_write_lem :
    (c : TcpConnection) (n : ℕ)
    → IsValid c.output
    → 0 < length (contents c.output)
    → c.channel.writes ≡ true
    → 0 < n
    → handle_write c (wrote n) ≡ ok (record c { wire = c.wire ++ take n (contents c.output) })
unfolding handle_write
handle_write_lem c n v h w p =
    ground (arith, retrieve_nothing v h, readable_bytes-eq v, length-contents v)

-- In a connection that is watched for writing, with a valid output buffer that is not empty, any number
-- of writable events that each write something leave the output buffer and the channel as they were;
-- what is sent is, for each event, the start of the same bytes again.
pub write_events_lem :
    (c : TcpConnection) (ns : List ℕ)
    → IsValid c.output
    → 0 < length (contents c.output)
    → c.channel.writes ≡ true
    → ArePositive ns
    → write_events c ns ≡ ok (record c { wire = c.wire ++ resent (contents c.output) ns })
unfolding write_events resent
write_events_lem c [] v h w p =
    ap (λ bytes. ok (record c { wire = bytes })) (sym (append-nil c.wire))
write_events_lem c (n ∷ ns) v h w p =
    let sent : TcpConnection = record c { wire = c.wire ++ take n (contents c.output) } in
    rw (handle_write_lem c n v h w p.0) (
      write_events_lem sent ns v h w p.1
      ∙ ap (λ bytes. ok (record c { wire = bytes }))
          (append_assoc c.wire (take n (contents c.output)) (resent (contents c.output) ns)))
