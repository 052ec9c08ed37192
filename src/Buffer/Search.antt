-- ===== src/Buffer/Search.antt =====
-- Buffer.h: `findCRLF` and `findEOL` find the first end of a line among the readable bytes.
use event_loop.Prelude.{
  ℕ, suc, ◌+◌, ◌≤◌, ◌<◌, ◌≡◌, ◌≢◌, inl, inr, ap, List, [], ◌∷◌, ◌++◌, Option, none, some,
  Bool-cases, Option-cases, length-append, arith, length, ◌==◌, ◌&&◌, eq→==, ne→==_false, ==_self,
}
use native.Mathlib.Decide.{dec_lt}
use event_loop.Buffer.{Buffer, contents, search_pair, find_byte, find_crlf, find_eol, cr, lf}
use event_loop.Buffer.Bounds.{IsValid, length-contents, readable_bytes-eq}

-- The pair is found no later than at any place where it stands.
search_pair-le : (x y : ℕ) (pre post : List ℕ) → search_pair x y (pre ++ x ∷ y ∷ post) ≤ length pre
unfolding search_pair
search_pair-le x y [] post = ground (arith, ==_self x, ==_self y)
search_pair-le x y (a ∷ []) post = ground (arith, search_pair-le x y [] post)
search_pair-le x y (a ∷ c ∷ r) post = ground (arith, search_pair-le x y (c ∷ r) post)

-- Where it is found, it stands.
search_pair-split :
    (x y : ℕ) (xs : List ℕ)
    → search_pair x y xs < length xs
    → (line : List ℕ) × (rest : List ℕ) × (xs ≡ line ++ x ∷ y ∷ rest)
      × (length line ≡ search_pair x y xs)
unfolding search_pair
search_pair-split x y [] h = elim h [ ]
search_pair-split x y (a ∷ []) h = absurd (omega arith)
search_pair-split x y (a ∷ c ∷ r) h = elim (Bool-cases (a == x && c == y)) [
  | inl hit ↦ ([], r, ground arith, ground arith)
  | inr miss ↦
      let (line, rest, e, n) = search_pair-split x y (c ∷ r) (ground arith) in
      (a ∷ line, rest, ap (λ t. a ∷ t) e, ground arith)
]

search_pair-bound : (x y : ℕ) (xs : List ℕ) → search_pair x y xs ≤ length xs
unfolding search_pair
search_pair-bound x y [] = omega arith
search_pair-bound x y (a ∷ []) = omega arith
search_pair-bound x y (a ∷ c ∷ r) = ground (arith, search_pair-bound x y (c ∷ r))

-- What `findCRLF` promises: it finds nothing in bytes without the pair, and otherwise the place after
-- the shortest line that the pair ends.
pub data FindsLine (b : Buffer) : Option ℕ → Type 0 where
  no_line : ((line rest : List ℕ) → contents b ≢ line ++ cr ∷ lf ∷ rest) → FindsLine b none
  ends_at :
      (line rest : List ℕ) {at : ℕ}
      → contents b ≡ line ++ cr ∷ lf ∷ rest
      → ((other after : List ℕ)
          → contents b ≡ other ++ cr ∷ lf ∷ after
          → length line ≤ length other)
      → at ≡ b.reader_index + length line
      → FindsLine b (some at)

search_pair-first :
    (x y : ℕ) {xs : List ℕ} (other after : List ℕ)
    → xs ≡ other ++ x ∷ y ∷ after
    → search_pair x y xs ≤ length other
search_pair-first x y other after e = rw e (search_pair-le x y other after)

length-pair :
    (x y : ℕ) {xs : List ℕ} (other after : List ℕ)
    → xs ≡ other ++ x ∷ y ∷ after
    → length other < length xs
length-pair x y other after e = omega (arith, ap length e, length-append other (x ∷ y ∷ after))

-- In a valid buffer `findCRLF` finds the end of the first line that "\r\n" ends, if there is one.
pub find_crlf_lem : {b : Buffer} → IsValid b → FindsLine b (find_crlf b)
unfolding find_crlf
find_crlf_lem {b} v = elim (dec_lt (search_pair cr lf (contents b)) (length (contents b))) [
  | yes found ↦
      let (line, rest, e, n) = search_pair-split cr lf (contents b) found in
      rw
        (ne→==_false (b.reader_index + search_pair cr lf (contents b)) b.writer_index
          (omega (arith, length-contents v)))
        (ends_at line rest e
          (λ other after e'. omega (arith, search_pair-first cr lf other after e')) (omega arith))
  | no missing ↦
      rw
        (eq→== (b.reader_index + search_pair cr lf (contents b)) b.writer_index
          (omega (arith, length-contents v, search_pair-bound cr lf (contents b))))
        (no_line (λ line rest e.
          omega (arith, search_pair-first cr lf line rest e, length-pair cr lf line rest e)))
]

find_byte-le :
    (x : ℕ) (pre post : List ℕ)
    → (n : ℕ) × (find_byte x (pre ++ x ∷ post) ≡ some n) × (n ≤ length pre)
unfolding find_byte
find_byte-le x [] post = (0, rw (==_self x), omega arith)
find_byte-le x (a ∷ pre) post = elim (Bool-cases (a == x)) [
  | inl hit ↦ (0, rw hit, omega arith)
  | inr miss ↦ let (n, e, h) = find_byte-le x pre post in (suc n, rw (miss, e), omega (arith, h))
]

find_byte-split :
    (x : ℕ) (xs : List ℕ) {n : ℕ}
    → find_byte x xs ≡ some n
    → (pre : List ℕ) × (post : List ℕ) × (xs ≡ pre ++ x ∷ post) × (length pre ≡ n)
unfolding find_byte
find_byte-split x [] e = cc
find_byte-split x (a ∷ r) {n} e = elim (Bool-cases (a == x)) [
  | inl hit ↦ ([], r, ground arith, ground arith)
  | inr miss ↦ elim (Option-cases (find_byte x r)) [
    | inl e' ↦ absurd (ground arith)
    | inr (m, e') ↦
        let (pre, post, s, h) = find_byte-split x r e' in
        (a ∷ pre, post, ap (λ t. a ∷ t) s, ground arith)
  ]
]

-- What `findEOL` promises: the place of the first "\n" among the readable bytes, if there is one.
pub data FindsEol (b : Buffer) : Option ℕ → Type 0 where
  no_eol : ((line rest : List ℕ) → contents b ≢ line ++ lf ∷ rest) → FindsEol b none
  eol_at :
      (line rest : List ℕ) {at : ℕ}
      → contents b ≡ line ++ lf ∷ rest
      → ((other after : List ℕ) → contents b ≡ other ++ lf ∷ after → length line ≤ length other)
      → at ≡ b.reader_index + length line
      → FindsEol b (some at)

find_byte-first :
    (x : ℕ) {n : ℕ} {xs : List ℕ} (other after : List ℕ)
    → find_byte x xs ≡ some n
    → xs ≡ other ++ x ∷ after
    → n ≤ length other
find_byte-first x {n} other after e s =
    let (m, e', h) = find_byte-le x other after in ground (arith, ap (find_byte x) s)

find_byte-absent :
    (x : ℕ) {xs : List ℕ} (other after : List ℕ) → find_byte x xs ≡ none → xs ≢ other ++ x ∷ after
find_byte-absent x other after e s =
    let (m, e', h) = find_byte-le x other after in ground (arith, ap (find_byte x) s)

-- In a valid buffer `findEOL` finds the first "\n" among the readable bytes, if there is one.
pub find_eol_lem : {b : Buffer} → IsValid b → FindsEol b (find_eol b)
unfolding find_eol
find_eol_lem {b} v = elim (Option-cases (find_byte lf (contents b))) [
  | inl e ↦
      rw (readable_bytes-eq v, e, find_eol) (no_eol (λ line rest. find_byte-absent lf line rest e))
  | inr (n, e) ↦
      let (line, rest, s, h) = find_byte-split lf (contents b) e in
      rw (readable_bytes-eq v, e, find_eol)
        (eol_at line rest s (λ other after s'. omega (arith, find_byte-first lf other after e s'))
          (omega arith))
]
