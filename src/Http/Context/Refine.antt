-- ===== src/Http/Context/Refine.antt =====
-- HttpContext.cpp: on a valid buffer the parser does what it does on the bytes of the contents.
use event_loop.Prelude.{
  ℕ, zero, suc, ◌+◌, ◌-◌, ◌≤◌, ◌≡◌, inl, inr, refl, sym, subst, ap, ◌∙◌, Bool, Option, none, some,
  [], ◌∷◌, ◌++◌, length, take, drop, slice, Result, ok, err, arith, Bool-cases, Option-cases,
  Result-cases, take-take, take-append_self, length-append, drop-append_self, drop-drop,
}
use event_loop.Buffer.{Buffer, contents, cr, lf, find_byte, find_crlf, retrieve_until, peek}
use event_loop.Buffer.Bounds.{IsValid, length-contents}
use event_loop.Buffer.Consume.{Holds-cases, retrieve_until_lem}
use event_loop.Buffer.Search.{FindsLine, no_line, ends_at, find_crlf_lem}
use event_loop.Http.Request.{Bytes, HttpRequest}
use event_loop.Http.Context.{
  HttpContext, State, expect_request_line, expect_headers, expect_body, got_all,
  process_request_line, Turn, stops, goes_on, request_line_turn, header_turn, turn, parse_request,
}
use event_loop.Http.Context.Lines.{
  first_line, first_line-split, first_line-le, on_line, turn_bytes, parse,
}

append-split :
    (xs ys : Bytes) {us vs : Bytes}
    → length xs ≡ length ys
    → xs ++ us ≡ ys ++ vs
    → (xs ≡ ys) × (us ≡ vs)
append-split [] [] h e = (refl, e)
append-split [] (y ∷ ys) h e = absurd (omega arith)
append-split (x ∷ xs) [] h e = absurd (omega arith)
append-split (x ∷ xs) (y ∷ ys) h e =
    let (p, q) = append-split xs ys (omega arith) (ground arith) in (ground arith, q)

-- The buffer's search and the first line of its contents.
data SeesLine (b : Buffer) : Option ℕ → Option (Bytes × Bytes) → Type 0 where
  none_yet : SeesLine b none none
  one :
      (line rest : Bytes) {at : ℕ}
      → contents b ≡ line ++ cr ∷ lf ∷ rest
      → at ≡ b.reader_index + length line
      → SeesLine b (some at) (some (line, rest))

finds-SeesLine :
    {b : Buffer} {o : Option ℕ} → FindsLine b o → SeesLine b o (first_line (contents b))
finds-SeesLine {b} (no_line absent) = elim (Option-cases (first_line (contents b))) [
  | inl e ↦ rw e none_yet
  | inr ((line, rest), e) ↦ absurd (absent line rest (first_line-split (contents b) e))
]
finds-SeesLine {b} (ends_at line rest s least at) =
    let (l, r, e, h) = first_line-le line rest in
    let e' : first_line (contents b) ≡ some (l, r) = ap first_line s ∙ e in
    let s' = first_line-split (contents b) e' in
    let (p, q) = append-split l line (omega (arith, h, least l r s')) (sym s' ∙ s) in
    rw e' (one l r s' (at ∙ ap (λ (x : Bytes). b.reader_index + length x) (sym p)))

sees_lem : {b : Buffer} → IsValid b → SeesLine b (find_crlf b) (first_line (contents b))
sees_lem v = finds-SeesLine (find_crlf_lem v)

module _ {b : Buffer} (line rest : Bytes) (v : IsValid b)
    (s : contents b ≡ line ++ cr ∷ lf ∷ rest) where
  line_inside : length line + 2 ≤ b.writer_index - b.reader_index
  line_inside = omega (arith, length-contents v, ap length s, length-append line (cr ∷ lf ∷ rest))

  -- The bytes before the found place are the line.
  slice-line : slice b.buffer b.reader_index (length line) ≡ line
  slice-line =
      sym (
        take-take (length line) (b.writer_index - b.reader_index) (drop b.reader_index b.buffer)
          (omega (arith, line_inside)))
      ∙ ap (take (length line)) s
      ∙ take-append_self line (cr ∷ lf ∷ rest)

  -- Taking the line and its end off leaves the rest.
  retrieve_line :
      (b' : Buffer) × (retrieve_until b (b.reader_index + length line + 2) ≡ ok b')
      × IsValid b'
      × (contents b' ≡ rest)
  retrieve_line =
      let (b', e, v', c) =
        Holds-cases (retrieve_until b (b.reader_index + (length line + 2))) (
          retrieve_until_lem (length line + 2) v (omega (arith, line_inside, length-contents v))) in
      (b', ap (retrieve_until b) (omega arith) ∙ e, v', c ∙ behind)
    where
      behind : drop (length line + 2) (contents b) ≡ rest
      behind =
          ap (drop (length line + 2)) s
          ∙ drop-drop (length line) 2 (line ++ cr ∷ lf ∷ rest)
          ∙ ap (drop 2) (drop-append_self line (cr ∷ lf ∷ rest))

  found_line : slice b.buffer b.reader_index (b.reader_index + length line - b.reader_index) ≡ line
  found_line = ap (slice b.buffer b.reader_index) (omega arith) ∙ slice-line

-- The same turn: alike in the flag and the context, with the bytes in a valid buffer.
abbrev Same : Result (Turn Buffer) → Result (Turn Bytes) → Type 0
Same (ok (stops g c b)) (ok (stops h d q)) = (g ≡ h) × (c ≡ d) × IsValid b × (contents b ≡ q)
Same (ok (goes_on c b)) (ok (goes_on d q)) = (c ≡ d) × IsValid b × (contents b ≡ q)
Same (err e) (err f) = e ≡ f
Same (ok (stops g c b)) (ok (goes_on d q)) = ⊥
Same (ok (goes_on c b)) (ok (stops h d q)) = ⊥
Same (ok (stops g c b)) (err f) = ⊥
Same (ok (goes_on c b)) (err f) = ⊥
Same (err e) (ok s) = ⊥

module _ {b : Buffer} (r : HttpRequest) (t : ℕ) (v : IsValid b) where
  abbrev at_state : State → HttpContext
  at_state st = record { state = st; request = r }

  request_line-Same :
      (o : Option ℕ) (l : Option (Bytes × Bytes))
      → find_crlf b ≡ o
      → first_line (contents b) ≡ l
      → SeesLine b o l
      → Same
          (request_line_turn (at_state expect_request_line) b t)
          (turn_bytes (at_state expect_request_line) (contents b) t)
  unfolding request_line_turn turn_bytes on_line peek
  request_line-Same none none p q none_yet =
      rw (p, q, request_line_turn, turn_bytes) (refl, refl, v, refl)
  request_line-Same none (some x) p q seen = elim seen [ ]
  request_line-Same (some at) none p q seen = elim seen [ ]
  request_line-Same (some at) (some x) p q (one line rest s e) =
      let (b', e', v', c') = retrieve_line line rest v s in
      rw (p, q, request_line_turn, turn_bytes)
        (rw (e, found_line line rest v s)
          (elim (Result-cases (process_request_line r line)) [
            | inr (fault, pr) ↦ rw (pr, on_line) refl
            | inl ((good, r'), pr) ↦ rw pr (elim (Bool-cases good) [
              | inl g ↦ rw (g, e') (refl, v', c')
              | inr g ↦ rw g (refl, refl, v, refl)
            ])
          ]))

  header-Same :
      (o : Option ℕ) (l : Option (Bytes × Bytes))
      → find_crlf b ≡ o
      → first_line (contents b) ≡ l
      → SeesLine b o l
      → Same
          (header_turn (at_state expect_headers) b)
          (turn_bytes (at_state expect_headers) (contents b) t)
  unfolding header_turn turn_bytes on_line peek
  header-Same none none p q none_yet = rw (p, q, header_turn, turn_bytes) (refl, refl, v, refl)
  header-Same none (some x) p q seen = elim seen [ ]
  header-Same (some at) none p q seen = elim seen [ ]
  header-Same (some at) (some x) p q (one line rest s e) =
      let (b', e', v', c') = retrieve_line line rest v s in
      rw (p, q, header_turn, turn_bytes)
        (rw (e, found_line line rest v s)
          (elim (Option-cases (find_byte b':' line)) [
            | inl f ↦ rw (f, on_line, e, e') (refl, refl, v', c')
            | inr (n, f) ↦ rw (f, on_line, e, e', found_line line rest v s) (refl, v', c')
          ]))

  state-Same :
      (st : State) → Same (turn (at_state st) b t) (turn_bytes (at_state st) (contents b) t)
  unfolding turn turn_bytes
  state-Same expect_request_line = request_line-Same _ _ refl refl (sees_lem v)
  state-Same expect_headers = header-Same _ _ refl refl (sees_lem v)
  state-Same expect_body = (refl, v, refl)
  state-Same got_all = (refl, v, refl)

-- On a valid buffer one round of the loop does what it does on the bytes.
pub turn-Same :
    {b : Buffer} (c : HttpContext) (t : ℕ)
    → IsValid b
    → Same (turn c b t) (turn_bytes c (contents b) t)
turn-Same c t v = state-Same c.request t v c.state

-- The same end of the loop.
abbrev pub SameEnd :
    Option (Result (Bool × HttpContext × Buffer))
    → Option (Result (Bool × HttpContext × Bytes))
    → Type 0
SameEnd (some (ok r)) (some (ok s)) = (r.0 ≡ s.0) × (r.1 ≡ s.1) × IsValid r.2 × (contents r.2 ≡ s.2)
SameEnd (some (err e)) (some (err f)) = e ≡ f
SameEnd none none = Unit
SameEnd (some (ok r)) (some (err f)) = ⊥
SameEnd (some (err e)) (some (ok s)) = ⊥
SameEnd (some r) none = ⊥
SameEnd none (some s) = ⊥

-- On a valid buffer `parseRequest` does what the parser of bytes does on its contents: with the same
-- fuel both run out, or fail the same assertion, or return the same flag and context and leave the
-- same bytes, in a valid buffer.
pub parse_refines :
    (fuel : ℕ) (c : HttpContext) {b : Buffer} (t : ℕ)
    → IsValid b
    → SameEnd (parse_request fuel c b t) (parse fuel c (contents b) t)
unfolding parse_request parse
parse_refines zero c t v = tt
parse_refines (suc fuel) c {b} t v =
    after (turn c b t) (turn_bytes c (contents b) t) (turn-Same c t v)
      (λ d b' v'. parse_refines fuel d {b = b'} t v')
  where
    after :
        (r : Result (Turn Buffer)) (s : Result (Turn Bytes))
        → Same r s
        → ((d : HttpContext) (b' : Buffer)
            → IsValid b'
            → SameEnd (parse_request fuel d b' t) (parse fuel d (contents b') t))
        → SameEnd
            (elim r [
              | err e ↦ some (err e)
              | ok (stops good c' b') ↦ some (ok (good, c', b'))
              | ok (goes_on c' b') ↦ parse_request fuel c' b' t
            ])
            (elim s [
              | err e ↦ some (err e)
              | ok (stops good c' q') ↦ some (ok (good, c', q'))
              | ok (goes_on c' q') ↦ parse fuel c' q' t
            ])
    after (ok (stops g x y)) (ok (stops h d q)) same ih = same
    after (ok (goes_on x y)) (ok (goes_on d q)) same ih =
        subst (λ z. SameEnd (parse_request fuel x y t) (parse fuel z q t)) same.0
          (subst (λ z. SameEnd (parse_request fuel x y t) (parse fuel x z t)) same.2
            (ih x y same.1))
    after (err e) (err f) same ih = same
    after (ok (stops g x y)) (ok (goes_on d q)) same ih = absurd same
    after (ok (goes_on x y)) (ok (stops h d q)) same ih = absurd same
    after (ok (stops g x y)) (err f) same ih = absurd same
    after (ok (goes_on x y)) (err f) same ih = absurd same
    after (err e) (ok s) same ih = absurd same
