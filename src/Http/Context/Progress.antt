-- ===== src/Http/Context/Progress.antt =====
-- HttpContext.cpp: when `parseRequest` returns, and when it does not.
use event_loop.Prelude.{
  ℕ, zero, suc, ◌+◌, ◌-◌, slice, ◌<◌, ◌≡◌, ◌≢◌, ◌⊎◌, refl, subst, ap, Bool, false, Option, none,
  some, ◌∷◌, Result, ok, err, assertion_failed, inl, inr, Option-cases, Bool-cases, Result-cases,
  arith, length, length-append,
}
use event_loop.Buffer.{Buffer, contents, cr, lf, find_byte, find_crlf, retrieve_until, peek}
use event_loop.Buffer.Bounds.{IsValid}
use event_loop.Http.Request.{
  Bytes, HttpRequest, Method, invalid, get, post, head, put, delete, set_method, is_invalid,
}
use event_loop.Http.Context.{
  HttpContext, State, expect_request_line, expect_headers, expect_body, got_all,
  process_request_line, Turn, stops, goes_on, turn, request_line_turn, parse_request,
}
use event_loop.Http.Context.Lines.{first_line, first_line-split, on_line, turn_bytes, parse}
use event_loop.Http.Context.Refine.{SameEnd, parse_refines}

-- A context that can read: its state reads lines, and no method is set before the request line.
abbrev pub IsReadyAt : State → Method → Type 0
IsReadyAt expect_request_line m = m ≡ invalid
IsReadyAt expect_headers m = Unit
IsReadyAt expect_body m = ⊥
IsReadyAt got_all m = ⊥

abbrev pub IsReady : HttpContext → Type 0
IsReady c = IsReadyAt c.state c.request.method

process_request_line_total :
    (r : HttpRequest) (line : Bytes)
    → r.method ≡ invalid
    → (x : Bool × HttpRequest) × (process_request_line r line ≡ ok x)
unfolding process_request_line set_method
process_request_line_total r line h = elim (Result-cases (process_request_line r line)) [
  | inl found ↦ found
  | inr (f, e) ↦ absurd (ground arith)
]

-- A turn that fails nothing, and if it goes on leaves fewer bytes and a context that can read.
abbrev Advances : Bytes → Result (Turn Bytes) → Type 0
Advances q (ok (stops g d q')) = Unit
Advances q (ok (goes_on d q')) = IsReady d × (length q' < length q)
Advances q (err e) = ⊥

line-shorter :
    (q : Bytes) {line rest : Bytes} → first_line q ≡ some (line, rest) → length rest < length q
line-shorter q {line} {rest} e =
    omega (arith, ap length (first_line-split q e), length-append line (cr ∷ lf ∷ rest))

turn_bytes-Advances :
    (st : State) (r : HttpRequest) (q : Bytes) (t : ℕ)
    → IsReadyAt st r.method
    → Advances q (turn_bytes (record { state = st; request = r }) q t)
unfolding turn_bytes on_line
turn_bytes-Advances expect_body r q t h = absurd h
turn_bytes-Advances got_all r q t h = absurd h
turn_bytes-Advances expect_request_line r q t h = elim (Option-cases (first_line q)) [
  | inl e ↦ rw (e, turn_bytes) tt
  | inr ((line, rest), e) ↦
      let ((good, r'), p) = process_request_line_total r line h in
      rw (e, turn_bytes, p)
        (elim (Bool-cases good) [ inl g ↦ rw g (tt, line-shorter q e) | inr g ↦ rw g tt ])
]
turn_bytes-Advances expect_headers r q t h = elim (Option-cases (first_line q)) [
  | inl e ↦ rw (e, turn_bytes) tt
  | inr ((line, rest), e) ↦
      rw (e, turn_bytes)
        (elim (Option-cases (find_byte b':' line)) [
          | inl f ↦ rw (f, on_line) tt
          | inr (n, f) ↦ rw (f, on_line) (tt, line-shorter q e)
        ])
]

parse_total :
    (fuel : ℕ) (c : HttpContext) (q : Bytes) (t : ℕ)
    → IsReady c
    → length q < fuel
    → (r : Bool × HttpContext × Bytes) × (parse fuel c q t ≡ some (ok r))
unfolding parse
parse_total zero c q t h k = absurd (omega arith)
parse_total (suc fuel) c q t h k =
    after (turn_bytes c q t) (turn_bytes-Advances c.state c.request q t h)
      (λ d q' h' k'. parse_total fuel d q' t h' (omega arith))
  where
    after :
        (w : Result (Turn Bytes))
        → Advances q w
        → ((d : HttpContext) (q' : Bytes)
            → IsReady d
            → length q' < length q
            → (r : Bool × HttpContext × Bytes) × (parse fuel d q' t ≡ some (ok r)))
        → (r : Bool × HttpContext × Bytes) × (elim w [
          | err e ↦ some (err e)
          | ok (stops good c' q') ↦ some (ok (good, c', q'))
          | ok (goes_on c' q') ↦ parse fuel c' q' t
        ]
            ≡ some (ok r))
    after (ok (stops g d q')) a ih = ((g, d, q'), refl)
    after (ok (goes_on d q')) a ih = ih d q' a.0 a.1
    after (err e) a ih = absurd a

-- What the end of the loop on a buffer is, where the parser of bytes ends well.
same-ok :
    (s : Bool × HttpContext × Bytes) (o : Option (Result (Bool × HttpContext × Buffer)))
    → SameEnd o (some (ok s))
    → (r : Bool × HttpContext × Buffer) × (o ≡ some (ok r)) × IsValid r.2
same-ok s (some (ok r)) h = (r, refl, h.2)
same-ok s (some (err e)) h = absurd h
same-ok s none h = absurd h

-- On a valid buffer, in a context that reads lines and has no method before the request line,
-- `parseRequest` returns, fails no assertion, and leaves a valid buffer: one round more than there
-- are bytes is enough.
pub parse_request_total :
    (fuel : ℕ) (c : HttpContext) {b : Buffer} (t : ℕ)
    → IsValid b
    → IsReady c
    → length (contents b) < fuel
    → (r : Bool × HttpContext × Buffer) × (parse_request fuel c b t ≡ some (ok r)) × IsValid r.2
parse_request_total fuel c {b} t v h k =
    let (s, e) = parse_total fuel c (contents b) t h k in
    same-ok s (parse_request fuel c b t)
      (subst (SameEnd (parse_request fuel c b t)) e (parse_refines fuel c t v))

-- In a context that has got all of a request, and in one that expects a body, `parseRequest` never
-- returns: no number of rounds is enough.
pub parse_request_hangs :
    (fuel : ℕ) (c : HttpContext) (b : Buffer) (t : ℕ)
    → (c.state ≡ got_all) ⊎ (c.state ≡ expect_body)
    → parse_request fuel c b t ≡ none
unfolding parse_request turn
parse_request_hangs zero c b t h = refl
parse_request_hangs (suc fuel) c b t h = ground (arith, parse_request_hangs fuel c b t)

pub is_invalid-false : (m : Method) → m ≢ invalid → is_invalid m ≡ false
is_invalid-false invalid h = absurd (h refl)
is_invalid-false get h = refl
is_invalid-false post h = refl
is_invalid-false head h = refl
is_invalid-false put h = refl
is_invalid-false delete h = refl

process_request_line_again :
    (r r' : HttpRequest) (line : Bytes) (good : Bool)
    → r.method ≡ invalid
    → process_request_line r line ≡ ok (good, r')
    → r'.method ≢ invalid
    → process_request_line r' line ≡ err assertion_failed
unfolding process_request_line set_method
process_request_line_again r r' line good h e m = elim (Option-cases (find_byte b' ' line)) [
  | inl f ↦ absurd (ground arith)
  | inr (n, f) ↦ rw (f, process_request_line, is_invalid-false r'.method m)
]

-- A request line that is refused stays in the buffer, with the method that it set: where that is a
-- known one, the next call of `parseRequest` fails the assertion in `setMethod`.
pub parse_request_again :
    (c d : HttpContext) (b b' : Buffer) (t t' fuel : ℕ)
    → c.state ≡ expect_request_line
    → c.request.method ≡ invalid
    → parse_request 1 c b t ≡ some (ok (false, d, b'))
    → d.request.method ≢ invalid
    → parse_request (suc fuel) d b' t' ≡ some (err assertion_failed)
unfolding parse_request turn request_line_turn
parse_request_again c d b b' t t' fuel s h e m = elim (Option-cases (find_crlf b)) [
  | inl f ↦ absurd (ground arith)
  | inr (at, f) ↦
      let line = slice b.buffer (peek b) (at - peek b) in
      elim (Result-cases (process_request_line c.request line)) [
        | inr (x, p) ↦ absurd (ground arith)
        | inl ((good, r'), p) ↦ elim (Result-cases (retrieve_until b (at + 2))) [
          | inr (x, w) ↦ ground (arith, process_request_line_again c.request r' line good h p)
          | inl (x, w) ↦ ground (arith, process_request_line_again c.request r' line good h p)
        ]
      ]
]
