-- ===== src/Buffer/Consume.antt =====
-- Buffer.h: `retrieve` and the operations on it take bytes off the front, `unwrite` off the back.
use native.Mathlib.Decide.{dec_lt}
use event_loop.Prelude.{
  ℕ, ◌+◌, ◌-◌, ◌≤◌, ◌<◌, ◌≡◌, refl, sym, subst, ap, ◌∙◌, List, [], Result, ok, err,
  assertion_failed, arith, length, take, drop, slice, drop_all, slice-drop, take-take, le→leb,
}
use event_loop.Buffer.{
  Buffer, contents, retrieve, retrieve_all, retrieve_until, retrieve_as_string, unwrite,
}
use event_loop.Buffer.Bounds.{IsValid, readable_bytes-eq, length-contents}

pub contents-retrieve_all : (b : Buffer) → contents (retrieve_all b) ≡ []
unfolding retrieve_all
contents-retrieve_all b = refl

pub retrieve_all-IsValid : {b : Buffer} → IsValid b → IsValid (retrieve_all b)
unfolding retrieve_all
retrieve_all-IsValid v = omega arith

-- What it is for `r` to be a valid buffer that holds `bytes`.
abbrev pub Holds : List ℕ → Result Buffer → Type 0
Holds bytes (ok b) = IsValid b × (contents b ≡ bytes)
Holds bytes (err e) = ⊥

pub Holds-cases :
    {bytes : List ℕ} (r : Result Buffer)
    → Holds bytes r
    → (b : Buffer) × (r ≡ ok b) × IsValid b × (contents b ≡ bytes)
Holds-cases (ok b) h = (b, refl, h.0, h.1)
Holds-cases (err e) h = absurd h

pub retrieve-eq :
    {b : Buffer} (len : ℕ)
    → IsValid b
    → len < b.writer_index - b.reader_index
    → retrieve b len ≡ ok (record b { reader_index = b.reader_index + len })
unfolding retrieve
retrieve-eq {b} len v h = ground arith

retrieve_all-eq :
    {b : Buffer} (len : ℕ)
    → IsValid b
    → len ≡ b.writer_index - b.reader_index
    → retrieve b len ≡ ok (retrieve_all b)
unfolding retrieve
retrieve_all-eq {b} len v h = ground arith

contents-advance :
    (b : Buffer) (len : ℕ)
    → len ≤ b.writer_index - b.reader_index
    → contents (record b { reader_index = b.reader_index + len }) ≡ drop len (contents b)
contents-advance b len h =
    ap (slice b.buffer (b.reader_index + len)) (omega arith)
    ∙ slice-drop b.buffer b.reader_index len (b.writer_index - b.reader_index - len)
    ∙ ap (λ n. drop len (slice b.buffer b.reader_index n)) (omega arith)

-- For a valid buffer and a count within the readable bytes, `retrieve` succeeds and leaves a valid
-- buffer that holds the old contents less that many bytes from the front.
pub retrieve_lem :
    {b : Buffer} (len : ℕ)
    → IsValid b
    → len ≤ length (contents b)
    → Holds (drop len (contents b)) (retrieve b len)
unfolding retrieve_all
retrieve_lem {b} len v h = elim (dec_lt len (b.writer_index - b.reader_index)) [
  | yes p ↦ rw (retrieve-eq len v p) (omega arith, contents-advance b len (omega arith))
  | no p ↦
      rw (retrieve_all-eq len v (omega (arith, length-contents v)))
        (retrieve_all-IsValid v, sym (drop_all len (contents b) (omega (arith, length-contents v))))
]

-- A count beyond the readable bytes fails the assertion.
pub retrieve_beyond :
    {b : Buffer} (len : ℕ)
    → IsValid b
    → length (contents b) < len
    → retrieve b len ≡ err assertion_failed
unfolding retrieve
retrieve_beyond len v h = ground (arith, length-contents v)

-- `retrieveUntil` a place within the readable bytes takes off what stands before it.
pub retrieve_until_lem :
    {b : Buffer} (len : ℕ)
    → IsValid b
    → len ≤ length (contents b)
    → Holds (drop len (contents b)) (retrieve_until b (b.reader_index + len))
unfolding retrieve_until
retrieve_until_lem {b} len v h = rw (le→leb b.reader_index (b.reader_index + len) (omega arith)) (
    rw (le→leb (b.reader_index + len) b.writer_index (omega (arith, length-contents v))) (
      subst (λ n. Holds (drop len (contents b)) (retrieve b n)) (omega arith)
        (retrieve_lem len v h)))

-- For a valid buffer and a count within the readable bytes, `retrieveAsString` returns that many
-- bytes from the front, and leaves a valid buffer that holds the others.
pub retrieve_as_string_lem :
    {b : Buffer} (len : ℕ)
    → IsValid b
    → len ≤ length (contents b)
    → (b' : Buffer) × (retrieve_as_string b len ≡ ok (take len (contents b), b'))
      × IsValid b'
      × (contents b' ≡ drop len (contents b))
unfolding retrieve_as_string
retrieve_as_string_lem {b} len v h =
    let (b', e, v', c) = Holds-cases (retrieve b len) (retrieve_lem len v h) in
    (
      b',
      rw
          (
            readable_bytes-eq v,
            le→leb len (b.writer_index - b.reader_index) (omega (arith, length-contents v)),
            e,
          )
          (ap (λ bytes. ok (bytes, b'))
            (sym (
              take-take len (b.writer_index - b.reader_index) (drop b.reader_index b.buffer)
                (omega (arith, length-contents v))))),
      v',
      c,
    )

-- `unwrite` takes bytes off the back.
pub unwrite_lem :
    {b : Buffer} (len : ℕ)
    → IsValid b
    → len ≤ length (contents b)
    → Holds (take (length (contents b) - len) (contents b)) (unwrite b len)
unfolding unwrite
unwrite_lem {b} len v h =
    rw
      (
        readable_bytes-eq v,
        le→leb len (b.writer_index - b.reader_index) (omega (arith, length-contents v)),
      )
      (
        omega (arith, length-contents v),
        ap (λ n. take n (drop b.reader_index b.buffer)) (omega (arith, length-contents v))
            ∙ sym (
                take-take (length (contents b) - len) (b.writer_index - b.reader_index)
                  (drop b.reader_index b.buffer) (omega (arith, length-contents v))),
      )
