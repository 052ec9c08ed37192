-- ===== src/Http/Context/Chunks.antt =====
-- HttpContext.cpp: it does not matter in what pieces a request arrives.
use Prim.Native.Nat.add
use event_loop.Prelude.{
  ℕ, zero, suc, ◌+◌, ◌≡◌, sym, subst, ap, ◌∙◌, Bool, true, none, some, ◌++◌, Result, ok, err,
  Option, refl, length, ◌≤◌, inl, inr, Option-cases, Result-cases, arith,
}
use event_loop.Http.Request.{Bytes, HttpRequest}
use event_loop.Buffer.{Buffer, max_size, append, contents, find_byte}
use event_loop.Buffer.Bounds.{IsValid}
use event_loop.Buffer.Append.{append_lem}
use event_loop.Http.Context.Refine.{SameEnd, parse_refines}
use event_loop.Http.Context.{
  HttpContext, State, expect_request_line, expect_headers, expect_body, got_all, stops, goes_on,
  parse_request,
}
use event_loop.Http.Context.Lines.{
  first_line, first_line-append, on_line, turn_bytes, parse, IsReading,
}

-- What more bytes change of a turn that goes on is what is left behind it.
turn-append :
    (st : State) (r : HttpRequest) (q more : Bytes) (t : ℕ) {d : HttpContext} {q' : Bytes}
    → turn_bytes (record { state = st; request = r }) q t ≡ ok (goes_on d q')
    → turn_bytes (record { state = st; request = r }) (q ++ more) t ≡ ok (goes_on d (q' ++ more))
unfolding turn_bytes on_line
turn-append expect_body r q more t e = ground arith
turn-append got_all r q more t e = ground arith
turn-append expect_request_line r q more t e = elim (Option-cases (first_line q)) [
  | inl f ↦ absurd (ground arith)
  | inr ((line, rest), f) ↦ ground (arith, first_line-append q more f)
]
turn-append expect_headers r q more t e = elim (Option-cases (first_line q)) [
  | inl f ↦ absurd (ground arith)
  | inr ((line, rest), f) ↦ ground (arith, first_line-append q more f)
]

-- A turn that stops to wait for more has changed nothing.
turn-waits :
    (st : State) (r : HttpRequest) (q : Bytes) (t : ℕ) {d : HttpContext} {q' : Bytes}
    → turn_bytes (record { state = st; request = r }) q t ≡ ok (stops true d q')
    → IsReading d.state
    → (record { state = st; request = r } ≡ d) × (q ≡ q')
unfolding turn_bytes on_line
turn-waits expect_body r q t e h = absurd (ground arith)
turn-waits got_all r q t e h = absurd (ground arith)
turn-waits expect_request_line r q t e h = ground arith
turn-waits expect_headers r q t {d} e h = elim (Option-cases (first_line q)) [
  | inl f ↦ ground arith
  | inr ((line, rest), f) ↦ elim (Option-cases (find_byte b':' line)) [
    | inr (n, g) ↦ absurd (ground arith)
    | inl g ↦ absurd (subst (λ (x : State). IsReading x) (finished g f) h)
  ]
]
  where
    finished :
        {line rest : Bytes}
        → find_byte b':' line ≡ none
        → first_line q ≡ some (line, rest)
        → d.state ≡ got_all
    finished g f = ground arith

-- Enough fuel stays enough.
pub parse_mono :
    (fuel more : ℕ) (c : HttpContext) (q : Bytes) (t : ℕ) (r : Result (Bool × HttpContext × Bytes))
    → parse fuel c q t ≡ some r
    → parse (fuel + more) c q t ≡ some r
unfolding parse
parse_mono zero more c q t r e = cc
parse_mono (suc fuel) more c q t r e =
    rw (add.suc fuel more) (elim (Result-cases (turn_bytes c q t)) [
      | inr (f, h) ↦ ground arith
      | inl (stops g d q', h) ↦ ground arith
      | inl (goes_on d q', h) ↦ ground (arith, parse_mono fuel more d q' t r)
    ])

resume :
    (f g : ℕ) (c d : HttpContext) (q q' more : Bytes) (t : ℕ)
    (r : Result (Bool × HttpContext × Bytes))
    → turn_bytes c q t ≡ ok (stops true d q')
    → IsReading d.state
    → parse g d (q' ++ more) t ≡ some r
    → parse (suc f + g) c (q ++ more) t ≡ some r
resume f g c d q q' more t r w h k =
    let (p, s) = turn-waits c.state c.request q t w h in
    ap (λ n. parse n c (q ++ more) t) {x = suc f + g} {y = g + suc f} (omega arith)
    ∙ parse_mono g (suc f) c (q ++ more) t r (
        subst (λ x. parse g x (q ++ more) t ≡ some r) (sym p)
          (subst (λ x. parse g d (x ++ more) t ≡ some r) (sym s) k))

-- The parser of bytes, on what it left and the bytes that follow.
parse_chunks :
    (f g : ℕ) (c d : HttpContext) (q q' more : Bytes) (t : ℕ)
    (r : Result (Bool × HttpContext × Bytes))
    → parse f c q t ≡ some (ok (true, d, q'))
    → IsReading d.state
    → parse g d (q' ++ more) t ≡ some r
    → parse (f + g) c (q ++ more) t ≡ some r
unfolding parse
parse_chunks zero g c d q q' more t r e h k = cc
parse_chunks (suc f) g c d q q' more t r e h k = elim (Result-cases (turn_bytes c q t)) [
  | inr (x, w) ↦ absurd (ground arith)
  | inl (stops good c1 q1, w) ↦ resume f g c d q q' more t r (ground arith) h k
  | inl (goes_on c1 q1, w) ↦ rw (add.suc f g) (
      ground
        (arith, turn-append c.state c.request q more t w, parse_chunks f g c1 d q1 q' more t r))
]

-- A parser that returns on a valid buffer, and the parser of bytes on its contents, return alike.
returned :
    (r : Option (Result (Bool × HttpContext × Buffer)))
    (s : Option (Result (Bool × HttpContext × Bytes))) (good : Bool) (d : HttpContext) (b : Buffer)
    → SameEnd r s
    → r ≡ some (ok (good, d, b))
    → (s ≡ some (ok (good, d, contents b))) × IsValid b
returned none s good d b h e = cc
returned (some (err f)) s good d b h e = cc
returned (some (ok x)) none good d b h e = absurd h
returned (some (ok x)) (some (err f)) good d b h e = absurd h
returned (some (ok (g, x, q))) (some (ok (g', x', q'))) good d b (p, o, v, c) e =
    let same : q ≡ b = ground (arith, e) in
    (ground (arith, e, p, o, c, same, ap contents same), subst IsValid same v)

returns :
    (r : Option (Result (Bool × HttpContext × Buffer))) (good : Bool) (d : HttpContext) (q : Bytes)
    → SameEnd r (some (ok (good, d, q)))
    → (b : Buffer) × (r ≡ some (ok (good, d, b))) × IsValid b × (contents b ≡ q)
returns none good d q s = absurd s
returns (some (err f)) good d q s = absurd s
returns (some (ok (g, x, b))) good d q (p, o, v, c) = (b, rw (p, o) refl, v, c)

-- Where parseRequest on a valid buffer waits for more, and bytes are then appended, with room for them, and
-- it returns on that: appended at first, with room for them, they have it return the same flag and
-- context at once, with the rounds of both calls, and leave the same bytes.
pub parse_request_chunks :
    (f g : ℕ) (c d x : HttpContext) (b b1 b2 b3 : Buffer) (more : Bytes) (t : ℕ) (good : Bool)
    → IsValid b
    → b.writer_index + length more ≤ max_size
    → b1.writer_index + length more ≤ max_size
    → parse_request f c b t ≡ some (ok (true, d, b1))
    → IsReading d.state
    → append b1 more ≡ ok b2
    → parse_request g d b2 t ≡ some (ok (good, x, b3))
    → (w w' : Buffer) × (append b more ≡ ok w)
      × (parse_request (f + g) c w t ≡ some (ok (good, x, w')))
      × IsValid w'
      × (contents w' ≡ contents b3)
parse_request_chunks f g c d x b b1 b2 b3 more t good v room room1 e h a k =
    let (first, v1) = returned _ _ true d b1 (parse_refines f c {b = b} t v) e in
    let (w, aw, w_is) = append_lem more v room in
    let (u, au, u_is) = append_lem more v1 room1 in
    let same : u ≡ b2 = ground (arith, a, au) in
    let v2 : IsValid b2 = subst IsValid same u_is.valid in
    let joined : contents b2 ≡ contents b1 ++ more = ap contents (sym same) ∙ u_is.joined in
    let (second, v3) = returned _ _ good x b3 (parse_refines g d {b = b2} t v2) k in
    let whole =
      parse_chunks f g c d (contents b) (contents b1) more t _ first h
        (ap (λ q. parse g d q t) (sym joined) ∙ second) in
    let (w', r, v', left) = returns (parse_request (f + g) c w t) good x (contents b3) (
      subst (λ s. SameEnd (parse_request (f + g) c w t) s)
        (ap (λ q. parse (f + g) c q t) w_is.joined ∙ whole)
        (parse_refines (f + g) c {b = w} t w_is.valid)) in
    (w, w', aw, r, v', left)
