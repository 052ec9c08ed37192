-- ===== src/TcpConnection/Posted.antt =====
-- TcpConnection.cpp: sends from other threads, which queue `sendInLoop` with a string in the loop. The string becomes a
-- StringPiece when the loop calls it.
use event_loop.Prelude.{
  ℕ, ◌+◌, ◌≤◌, ◌≡◌, ◌≢◌, refl, sym, ap, subst, ◌∙◌, inl, inr, Option, none, some, List, [], ◌∷◌,
  ◌++◌, append_assoc, append-nil, length, if◌then◌else◌, Bool-cases, Result, ok, ◌>>=◌, arith, ◌<◌,
  ◌^◌, ltb, not, ◌&&◌, length-drop,
}
use event_loop.Buffer.{Buffer, max_size, retrieve_all_as_string}
use event_loop.Buffer.Append.{append_lem}
use event_loop.Buffer.Bounds.{IsValid}
use event_loop.StringPiece.{StringPiece, of_string, as_string}
use event_loop.StringPiece.Order.{before_zero, before_zero-le, of_string_lem}
use event_loop.TcpConnection.State.{
  TcpConnection, Write, wrote, refused, broken, would_block, other_error, disconnected,
  is_connected, is_disconnected,
}
use event_loop.TcpConnection.Send.{
  send_in_loop, attempt, direct_write, buffer_rest, note_high_water,
}
use event_loop.TcpConnection.Closing.{attempt-state, buffer_rest-state}
use event_loop.TcpConnection.Stream.{stream, IsWatched, send_in_loop_lem}

-- `send` in another thread: the string of the functor that it queues, if the connection is connected.
unfoldable pub post : TcpConnection → StringPiece → Option (List ℕ)
unfolding as_string
post c message = if is_connected c.state then some (as_string message) else none

-- `send` of a buffer, which it empties.
unfoldable pub post_buffer : TcpConnection → Buffer → Result (Option (List ℕ) × Buffer)
post_buffer c buf =
    if is_connected c.state
    then (retrieve_all_as_string buf >>= λ r. ok (some r.0, r.1))
    else ok (none, buf)

-- The loop calls the functor.
unfoldable pub run_posted : TcpConnection → List ℕ → Write → Result TcpConnection
unfolding of_string as_string
run_posted c text answer = of_string text >>= λ p. send_in_loop c (as_string p) answer

-- One functor after another, each with the kernel's answer.
unfoldable pub run_all_posted : TcpConnection → List (List ℕ × Write) → Result TcpConnection
run_all_posted c [] = ok c
run_all_posted c (p ∷ ps) = run_posted c p.0 p.1 >>= λ d. run_all_posted d ps

-- The bytes that are sent, and how many the strings have.
pub sent : List (List ℕ × Write) → List ℕ
sent [] = []
sent (p ∷ ps) = before_zero p.0 ++ sent ps

abbrev pub total : List (List ℕ × Write) → ℕ
total [] = 0
total (p ∷ ps) = length p.0 + total ps

-- Each string has a length that is an `int`.
abbrev pub AreInts : List (List ℕ × Write) → Type 0
AreInts [] = Unit {0}
AreInts (p ∷ ps) = (length p.0 < 2 ^ 31) × AreInts ps

abbrev pub NoneBroken : List (List ℕ × Write) → Type 0
NoneBroken [] = Unit {0}
NoneBroken (p ∷ ps) = (p.1 ≢ refused broken) × NoneBroken ps

attempt-output :
    (c : TcpConnection) (bytes : List ℕ) (answer : Write)
    → ((attempt c bytes answer).conn.output ≡ c.output)
      × (length (attempt c bytes answer).remaining ≤ length bytes)
unfolding attempt direct_write
attempt-output c bytes (wrote n) = ground (arith, length-drop n bytes)
attempt-output c bytes (refused would_block) = ground arith
attempt-output c bytes (refused broken) = ground arith
attempt-output c bytes (refused other_error) = ground arith

buffer_rest-le :
    (c : TcpConnection) (rest : List ℕ) {d : TcpConnection}
    → IsValid c.output
    → c.output.writer_index + length rest ≤ max_size
    → buffer_rest c rest ≡ ok d
    → length d.output.buffer ≤ length c.output.buffer + length rest
unfolding buffer_rest note_high_water
buffer_rest-le c rest v small e =
    let (filled, f, a) = append_lem rest v small in ground (arith, f, a.bounded, e)

-- The state stays, and the vector grows by no more than the bytes.
send_in_loop-le :
    (c : TcpConnection) (bytes : List ℕ) (answer : Write) {d : TcpConnection}
    → IsValid c.output
    → c.output.writer_index + length bytes ≤ max_size
    → send_in_loop c bytes answer ≡ ok d
    → (d.state ≡ c.state) × (length d.output.buffer ≤ length c.output.buffer + length bytes)
unfolding send_in_loop
send_in_loop-le c bytes answer {d} v small e =
    let a = attempt c bytes answer in
    let (same, less) = attempt-output c bytes answer in
    let v' : IsValid a.conn.output = subst IsValid (sym same) v in
    let w = ap (λ (b : Buffer). b.writer_index) same in
    let l = ap (λ (b : Buffer). length b.buffer) same in
    elim (Bool-cases (is_disconnected c.state)) [
      | inl y ↦ ground (arith, e, y)
      | inr n ↦ elim (Bool-cases (not a.fault_error && ltb 0 (length a.remaining))) [
        | inl y ↦
            let e' : buffer_rest a.conn a.remaining ≡ ok d = ground (arith, e, n, y) in
            (
              buffer_rest-state a.conn a.remaining e' ∙ attempt-state c bytes answer,
              omega (
                arith,
                less,
                l,
                buffer_rest-le a.conn a.remaining v' (omega (arith, small, less, w)) e',
              ),
            )
        | inr o ↦
            let e' : a.conn ≡ d = ground (arith, e, n, o) in
            (
              ap (λ (k : TcpConnection). k.state) (sym e') ∙ attempt-state c bytes answer,
              omega (arith, l, ap (λ (k : TcpConnection). length k.output.buffer) e'),
            )
      ]
    ]

-- For a connection that is not disconnected, with a valid output buffer whose vector can grow by the strings,
-- which is watched for writing if bytes wait, and strings shorter than 2 ^ 31 bytes: the functors that other threads' sends queued, called one
-- after another where no write fails for good, all succeed. The bytes written and waiting are those before,
-- and behind them, in the order of the functors, of each string the bytes before its first zero byte.
pub run_all_posted-sent :
    (c : TcpConnection) (ps : List (List ℕ × Write))
    → c.state ≢ disconnected
    → IsValid c.output
    → length c.output.buffer + total ps ≤ max_size
    → IsWatched c
    → AreInts ps
    → NoneBroken ps
    → (d : TcpConnection) × (run_all_posted c ps ≡ ok d) × (stream d ≡ stream c ++ sent ps)
unfolding run_all_posted run_posted sent
run_all_posted-sent c [] up v small watched ints good = (c, refl, sym (append-nil (stream c)))
run_all_posted-sent c (p ∷ ps) up v small watched (int, ints) (g, good) =
    let (piece, cut, read) = of_string_lem p.0 int in
    let bytes = as_string piece in
    let less : length bytes ≤ length p.0 = omega (arith, ap length read, before_zero-le p.0) in
    let room : c.output.writer_index + length bytes ≤ max_size =
      omega (arith, small, less, v.inside) in
    let (d, e, v', watched', o) = send_in_loop_lem c bytes p.1 up v room watched in
    let (st, grown) = send_in_loop-le c bytes p.1 v room e in
    let (f, run, s) =
      run_all_posted-sent d ps (λ x. up (sym st ∙ x)) v' (omega (arith, small, grown, less))
        watched' ints good in
    (
      f,
      rw (cut, e) run,
      elim o [
        | inl t ↦
            s
            ∙ ap (λ (xs : List ℕ). xs ++ sent ps) (t ∙ ap (◌++◌ (stream c)) read)
            ∙ append_assoc (stream c) _ _
        | inr (b, t) ↦ absurd (g b)
      ],
    )
