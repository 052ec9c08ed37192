-- ===== src/Http/Context/Lines.antt =====
-- What HttpContext.cpp promises, on the bytes themselves: lines that "\r\n" ends, each judged by the
-- state that it meets.
use event_loop.Prelude.{
  ℕ, zero, suc, ◌≤◌, ◌≡◌, refl, Bool, true, false, ◌&&◌, Option, none, some, [], ◌∷◌, ◌++◌, length,
  ◌==◌, if◌then◌else◌, Result, ok, err, ◌>>=◌, arith, Bool-cases, Option-cases, inl, inr,
}
use event_loop.Buffer.{cr, lf, find_byte}
use event_loop.Http.Request.{Bytes, set_receive_time, add_header}
use event_loop.Http.Context.{
  HttpContext, State, expect_request_line, expect_headers, expect_body, got_all,
  process_request_line, Turn, stops, goes_on,
}

-- The first line and what stands behind its end.
unfoldable pub first_line : Bytes → Option (Bytes × Bytes)
first_line [] = none
first_line (a ∷ []) = none
first_line (a ∷ c ∷ r) =
    let rest = first_line (c ∷ r) in
    if a == cr && c == lf
    then some ([], r)
    else elim rest [ none ↦ none | some (line, q) ↦ some (a ∷ line, q) ]

-- What a line does in the two states that read one: the context after it, and whether the parser goes
-- on; `stops false` refuses the line, which then stays.
unfoldable pub on_line : HttpContext → Bytes → Bytes → Bytes → ℕ → Result (Turn Bytes)
on_line c line rest q t = elim c.state [
  | expect_request_line ↦ do
    r ← process_request_line c.request line
    if r.0
        then ok (goes_on (record { state = expect_headers; request = set_receive_time r.1 t }) rest)
        else ok (stops false (record c { request = r.1 }) q)
  | expect_headers ↦ elim (find_byte b':' line) [
    | some colon ↦ ok (goes_on (record c { request = add_header c.request line colon }) rest)
    | none ↦ ok (stops true (record c { state = got_all }) rest)
  ]
  | expect_body ↦ ok (goes_on c q)
  | got_all ↦ ok (goes_on c q)
]

abbrev pub IsReading : State → Type 0
IsReading expect_request_line = Unit
IsReading expect_headers = Unit
IsReading expect_body = ⊥
IsReading got_all = ⊥

unfoldable pub turn_bytes : HttpContext → Bytes → ℕ → Result (Turn Bytes)
turn_bytes c q t = elim c.state [
  | expect_body ↦ ok (goes_on c q)
  | got_all ↦ ok (goes_on c q)
  | _ ↦ elim (first_line q) [
    | none ↦ ok (stops true c q)
    | some (line, rest) ↦ on_line c line rest q t
  ]
]

unfoldable pub parse : ℕ → HttpContext → Bytes → ℕ → Option (Result (Bool × HttpContext × Bytes))
parse zero c q t = none
parse (suc fuel) c q t = elim (turn_bytes c q t) [
  | err e ↦ some (err e)
  | ok (stops good c' q') ↦ some (ok (good, c', q'))
  | ok (goes_on c' q') ↦ parse fuel c' q' t
]

-- Where a first line is found, it and its end begin the bytes.
pub first_line-split :
    (q : Bytes) {line rest : Bytes} → first_line q ≡ some (line, rest) → q ≡ line ++ cr ∷ lf ∷ rest
unfolding first_line
first_line-split [] e = cc
first_line-split (a ∷ []) e = cc
first_line-split (a ∷ c ∷ r) {line} {rest} e = elim (Bool-cases (a == cr && c == lf)) [
  | inl hit ↦ ground arith
  | inr miss ↦ elim (Option-cases (first_line (c ∷ r))) [
    | inl e' ↦ absurd (ground arith)
    | inr ((l, q), e') ↦ ground (arith, first_line-split (c ∷ r) e')
  ]
]

-- Bytes behind a line do not change it.
pub first_line-append :
    (q more : Bytes) {line rest : Bytes}
    → first_line q ≡ some (line, rest)
    → first_line (q ++ more) ≡ some (line, rest ++ more)
unfolding first_line
first_line-append [] more e = cc
first_line-append (a ∷ []) more e = cc
first_line-append (a ∷ c ∷ r) more {line} {rest} e = elim (Bool-cases (a == cr && c == lf)) [
  | inl hit ↦ ground arith
  | inr miss ↦ elim (Option-cases (first_line (c ∷ r))) [
    | inl e' ↦ absurd (ground arith)
    | inr ((l, q), e') ↦ ground (arith, first_line-append (c ∷ r) more e')
  ]
]

-- Where a pair of end bytes stands, a line is found that ends there or before.
pub first_line-le :
    (line rest : Bytes)
    → (l : Bytes) × (r : Bytes) × (first_line (line ++ cr ∷ lf ∷ rest) ≡ some (l, r))
      × (length l ≤ length line)
unfolding first_line
first_line-le [] rest = ([], rest, refl, omega arith)
first_line-le (a ∷ []) rest = elim (Bool-cases (a == cr && cr == lf)) [
  | inl hit ↦ ([], lf ∷ rest, ground arith, omega arith)
  | inr miss ↦
      let (l, r, e, h) = first_line-le [] rest in (a ∷ l, r, ground arith, omega (arith, h))
]
first_line-le (a ∷ c ∷ line) rest = elim (Bool-cases (a == cr && c == lf)) [
  | inl hit ↦ ([], line ++ cr ∷ lf ∷ rest, ground arith, omega arith)
  | inr miss ↦
      let (l, r, e, h) = first_line-le (c ∷ line) rest in (a ∷ l, r, ground arith, omega (arith, h))
]
