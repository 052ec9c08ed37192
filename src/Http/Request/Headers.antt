-- ===== src/Http/Request/Headers.antt =====
-- HttpRequest.h: a header that is added is found again, and no other changes.
use event_loop.Prelude.{ℕ, suc, true, List, [], ◌∷◌, ◌≡◌, refl, arith, take, drop, if◌then◌else◌}
use event_loop.Http.Request.{
  Bytes, HttpRequest, bytes_eq, assign, find_header, add_header, get_header, skip_spaces, trim_end,
}

pub bytes_eq-eq : (xs ys : Bytes) → bytes_eq xs ys ≡ true → xs ≡ ys
unfolding bytes_eq
bytes_eq-eq [] [] h = refl
bytes_eq-eq [] (y ∷ ys) h = cc
bytes_eq-eq (x ∷ xs) [] h = cc
bytes_eq-eq (x ∷ xs) (y ∷ ys) h = ground (arith, bytes_eq-eq xs ys)

pub bytes_eq_self : (xs : Bytes) → bytes_eq xs xs ≡ true
unfolding bytes_eq
bytes_eq_self [] = refl
bytes_eq_self (x ∷ xs) = ground (arith, bytes_eq_self xs)

find_header-assign :
    (f g v : Bytes) (hs : List (Bytes × Bytes))
    → find_header g (assign f v hs) ≡ (if bytes_eq f g then v else find_header g hs)
unfolding find_header assign
find_header-assign f g v [] = refl
find_header-assign f g v ((h, w) ∷ hs) = ground (
  arith,
  find_header-assign f g v hs,
  bytes_eq-eq h f,
  bytes_eq-eq h g,
  bytes_eq-eq f g,
  bytes_eq_self g,
)

-- After a line is added, the field before its colon has the value behind it less the blanks at both
-- ends, and every other field what it had.
pub get_header-add_header :
    (r : HttpRequest) (line g : Bytes) (colon : ℕ)
    → get_header (add_header r line colon) g ≡ (
        if bytes_eq (take colon line) g
        then trim_end (skip_spaces (drop (suc colon) line))
        else get_header r g)
unfolding get_header add_header
get_header-add_header r line g colon =
    find_header-assign (take colon line) g (trim_end (skip_spaces (drop (suc colon) line)))
      r.headers
