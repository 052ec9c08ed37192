-- ===== src/TcpConnection/Stream.antt =====
-- TcpConnection.cpp: `sendInLoop` keeps the bytes in order.
use event_loop.Prelude.{
  ℕ, ◌+◌, ◌≤◌, ◌<◌, ◌≡◌, ◌≢◌, ◌⊎◌, inl, inr, refl, sym, subst, ap, ap₂, ◌∙◌, true, false, not, ◌&&◌,
  List, [], ◌∷◌, ◌++◌, append_assoc, append-nil, length-append, length, take, take-append-drop, ok,
  arith, Bool-cases, ltb, ◌==◌,
}
use event_loop.Buffer.{Buffer, max_size, readable_bytes, contents}
use event_loop.Buffer.Bounds.{IsValid, length-contents, readable_bytes-eq}
use event_loop.Buffer.Append.{append_lem}
use event_loop.Channel
use event_loop.Channel.{Channel}
use event_loop.TcpConnection.State.{
  State, disconnected, connecting, connected, disconnecting, would_block, broken, other_error,
  Write, wrote, refused, TcpConnection, is_disconnected,
}
use event_loop.TcpConnection.Send.{
  Attempt, direct_write, attempt, note_high_water, watch_writing, buffer_rest, send_in_loop,
}

-- The bytes that were handed to the kernel, and those that wait behind them.
abbrev pub stream : TcpConnection → List ℕ
stream c = c.wire ++ contents c.output

-- Bytes wait only in a connection that is watched for writing.
abbrev pub IsWatched : TcpConnection → Type 0
IsWatched c = 0 < length (contents c.output) → c.channel.writes ≡ true

not_disconnected : (s : State) → s ≢ disconnected → is_disconnected s ≡ false
not_disconnected disconnected h = absurd (h refl)
not_disconnected connecting h = refl
not_disconnected connected h = refl
not_disconnected disconnecting h = refl

-- What an attempt leaves: what it wrote and what remains make up the bytes, the buffer is as it was,
-- and it wrote something only if nothing waited.
record Attempted (c : TcpConnection) (bytes : List ℕ) (answer : Write) (a : Attempt) : Type 0 where
  output : a.conn.output ≡ c.output
  channel : a.conn.channel ≡ c.channel
  split :
      (part : List ℕ) × (a.conn.wire ≡ c.wire ++ part)
      × (part ++ a.remaining ≡ bytes)
      × ((part ≡ []) ⊎ (contents c.output ≡ []))
  fault : a.fault_error ≡ true → (answer ≡ refused broken) × (a.conn.wire ≡ c.wire)

length-nil : (xs : List ℕ) → length xs ≡ 0 → xs ≡ []
length-nil [] e = refl
length-nil (x ∷ xs) e = absurd (omega arith)

direct_write-Attempted :
    (c : TcpConnection) (bytes : List ℕ) (answer : Write)
    → contents c.output ≡ []
    → Attempted c bytes answer (direct_write c bytes answer)
unfolding direct_write
direct_write-Attempted c bytes (wrote n) e = record {
  output = ground arith;
  channel = ground arith;
  split = (take n bytes, ground arith, take-append-drop n bytes, inr e);
  fault = λ f. cc;
}
direct_write-Attempted c bytes (refused broken) e = record {
  output = refl;
  channel = refl;
  split = ([], sym (append-nil c.wire), refl, inl refl);
  fault = λ f. (refl, refl);
}
direct_write-Attempted c bytes (refused would_block) e = record {
  output = refl;
  channel = refl;
  split = ([], sym (append-nil c.wire), refl, inl refl);
  fault = λ f. cc;
}
direct_write-Attempted c bytes (refused other_error) e = record {
  output = refl;
  channel = refl;
  split = ([], sym (append-nil c.wire), refl, inl refl);
  fault = λ f. cc;
}

attempt-Attempted :
    (c : TcpConnection) (bytes : List ℕ) (answer : Write)
    → IsValid c.output
    → Attempted c bytes answer (attempt c bytes answer)
unfolding attempt
attempt-Attempted c bytes answer v =
    elim (Bool-cases (not c.channel.writes && (readable_bytes c.output == 0))) [
      | inl idle ↦
          rw (idle, attempt)
            (direct_write-Attempted c bytes answer (
              length-nil (contents c.output)
                (ground (arith, readable_bytes-eq v, length-contents v))))
      | inr busy ↦
          rw (busy, attempt)
            (record {
              output = refl;
              channel = refl;
              split = ([], sym (append-nil c.wire), refl, inl refl);
              fault = λ f. cc;
            })
    ]

note_high_water_lem :
    (c : TcpConnection) (n : ℕ)
    → ((note_high_water c n).output ≡ c.output)
      × ((note_high_water c n).wire ≡ c.wire)
      × ((note_high_water c n).channel ≡ c.channel)
unfolding note_high_water
note_high_water_lem c n = ground arith

-- What is buffered stands behind what waits, nothing is written, and the channel is watched.
buffer_rest_lem :
    (c : TcpConnection) (rest : List ℕ)
    → IsValid c.output
    → c.output.writer_index + length rest ≤ max_size
    → (d : TcpConnection) × (buffer_rest c rest ≡ ok d)
      × IsValid d.output
      × (contents d.output ≡ contents c.output ++ rest)
      × (d.wire ≡ c.wire)
      × (d.channel.writes ≡ true)
unfolding buffer_rest Channel.is_writing Channel.enable_writing
buffer_rest_lem c rest v small =
    let noted = note_high_water c (length rest) in
    let (same, wire, _) = note_high_water_lem c (length rest) in
    let (filled, e, a) = append_lem rest v small in
    (
      record noted { output = filled; channel = watch_writing noted.channel },
      rw (same, e),
      a.valid,
      a.joined,
      wire,
      ground arith,
    )

stream_lem :
    (c : TcpConnection) {bytes : List ℕ} (wire part rest : List ℕ)
    → wire ≡ c.wire ++ part
    → part ++ rest ≡ bytes
    → (part ≡ []) ⊎ (contents c.output ≡ [])
    → wire ++ (contents c.output ++ rest) ≡ stream c ++ bytes
stream_lem c wire part rest w p (inl e) =
    ap₂ ◌++◌ (w ∙ ap (◌++◌ c.wire) e ∙ append-nil c.wire)
      (ap (◌++◌ (contents c.output)) (ap (λ x. x ++ rest) (sym e) ∙ p))
    ∙ sym (append_assoc c.wire (contents c.output) _)
stream_lem c wire part rest w p (inr e) =
    ap₂ ◌++◌ w (ap (λ x. x ++ rest) e)
    ∙ append_assoc c.wire part rest
    ∙ ap₂ ◌++◌ (sym (append-nil c.wire) ∙ ap (◌++◌ c.wire) (sym e)) p

-- For a connection that is not disconnected, with a valid output buffer whose vector can grow as far,
-- which is watched for writing if bytes wait: `sendInLoop` succeeds and keeps the buffer valid and
-- the channel watched while bytes wait; and the bytes written and waiting are those before it with the
-- new ones behind, unless the write fails for good, when they are those before it.
pub send_in_loop_lem :
    (c : TcpConnection) (bytes : List ℕ) (answer : Write)
    → c.state ≢ disconnected
    → IsValid c.output
    → c.output.writer_index + length bytes ≤ max_size
    → IsWatched c
    → (d : TcpConnection) × (send_in_loop c bytes answer ≡ ok d)
      × IsValid d.output
      × IsWatched d
      × ((stream d ≡ stream c ++ bytes) ⊎ ((answer ≡ refused broken) × (stream d ≡ stream c)))
unfolding send_in_loop
send_in_loop_lem c bytes answer up v small watched =
    let a = attempt c bytes answer in
    let t = attempt-Attempted c bytes answer v in
    let (part, w, p, o) = t.split in
    let v' : IsValid a.conn.output = subst IsValid (sym t.output) v in
    elim (Bool-cases (not a.fault_error && ltb 0 (length a.remaining))) [
      | inl more ↦
          let (d, e, valid, c', w', watched') = buffer_rest_lem a.conn a.remaining v' (
            omega (
              arith,
              ap (λ (b : Buffer). b.writer_index) t.output,
              ap length p,
              length-append part a.remaining,
            )) in
          (
            d,
            rw (not_disconnected c.state up, more, e),
            valid,
            (λ _. watched'),
            inl (
                ap₂ ◌++◌ w' (c' ∙ ap (λ (b : Buffer). contents b ++ a.remaining) t.output)
                ∙ stream_lem c a.conn.wire part a.remaining w p o),
          )
      | inr done ↦ (
        a.conn,
        rw (not_disconnected c.state up, done),
        v',
        (λ h.
            ap (λ (ch : Channel). ch.writes) t.channel
            ∙ watched (subst (λ (b : Buffer). 0 < length (contents b)) t.output h)),
        (elim (Bool-cases a.fault_error) [
          | inl f ↦
              inr ((t.fault f).0, ap₂ ◌++◌ (t.fault f).1 (ap (λ (b : Buffer). contents b) t.output))
          | inr f ↦
              let rest : a.remaining ≡ [] = length-nil a.remaining (ground arith) in
              inl (
                ap (λ x. a.conn.wire ++ x)
                  (ap (λ (b : Buffer). contents b) t.output
                    ∙ sym (append-nil (contents c.output))
                    ∙ ap (◌++◌ (contents c.output)) (sym rest))
                ∙ stream_lem c a.conn.wire part a.remaining w p o)
        ]),
      )
    ]
