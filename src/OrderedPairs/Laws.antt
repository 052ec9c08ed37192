-- ===== src/OrderedPairs/Laws.antt =====
-- The laws of a sorted set of pairs.
use event_loop.Prelude.{
  suc, ◌+◌, ◌≡◌, refl, true, false, not, ◌&&◌, ◌||◌, List, [], ◌∷◌, ◌++◌, length, arith,
}
use event_loop.OrderedPairs.{Pair, before, same, contains, insert, erase, split, AllAfter, IsSorted}

trans-AllAfter : (x y : Pair) (ys : List Pair) → before x y ≡ true → AllAfter y ys → AllAfter x ys
trans-AllAfter x y [] h a = tt
trans-AllAfter (a, b) (c, d) ((e, f) ∷ ys) h (p, rest) =
    (ground arith, trans-AllAfter (a, b) (c, d) ys h rest)

pub AllAfter-contains : (x : Pair) (ys : List Pair) → AllAfter x ys → contains x ys ≡ false
unfolding contains
AllAfter-contains x [] a = refl
AllAfter-contains (a, b) ((c, d) ∷ ys) (p, rest) = ground (arith, AllAfter-contains (a, b) ys rest)

pub contains-insert :
    (x y : Pair) (ys : List Pair) → contains x (insert y ys) ≡ same x y || contains x ys
unfolding contains insert
contains-insert (a, b) (c, d) [] = ground arith
contains-insert (a, b) (c, d) ((e, f) ∷ ys) = ground (arith, contains-insert (a, b) (c, d) ys)

pub contains-erase :
    (x y : Pair) (ys : List Pair)
    → IsSorted ys
    → contains x (erase y ys) ≡ not (same x y) && contains x ys
unfolding contains erase
contains-erase (a, b) (c, d) [] s = ground arith
contains-erase (a, b) (c, d) ((e, f) ∷ ys) (p, s) =
    ground (arith, contains-erase (a, b) (c, d) ys s, AllAfter-contains (e, f) ys p)

insert-AllAfter :
    (x y : Pair) (ys : List Pair) → before x y ≡ true → AllAfter x ys → AllAfter x (insert y ys)
unfolding insert
insert-AllAfter x y [] h a = (h, tt)
insert-AllAfter x y (z ∷ ys) h (p, rest) = let ih = insert-AllAfter x y ys h rest in ground arith

pub insert-IsSorted : (y : Pair) (ys : List Pair) → IsSorted ys → IsSorted (insert y ys)
unfolding insert
insert-IsSorted y [] s = (tt, tt)
insert-IsSorted (c, d) ((e, f) ∷ ys) (p, s) =
    let ih = insert-IsSorted (c, d) ys s in
    ground (arith, trans-AllAfter (c, d) (e, f) ys, insert-AllAfter (e, f) (c, d) ys)

erase-AllAfter : (x y : Pair) (ys : List Pair) → AllAfter x ys → AllAfter x (erase y ys)
unfolding erase
erase-AllAfter x y [] a = tt
erase-AllAfter x y (z ∷ ys) (p, rest) = let ih = erase-AllAfter x y ys rest in ground arith

pub erase-IsSorted : (y : Pair) (ys : List Pair) → IsSorted ys → IsSorted (erase y ys)
unfolding erase
erase-IsSorted y [] s = tt
erase-IsSorted y (z ∷ ys) (p, s) =
    let ih = erase-IsSorted y ys s in ground (arith, erase-AllAfter z y ys)

pub length-insert :
    (y : Pair) (ys : List Pair) → contains y ys ≡ false → length (insert y ys) ≡ suc (length ys)
unfolding contains insert
length-insert y [] h = refl
length-insert (c, d) ((e, f) ∷ ys) h = ground (arith, length-insert (c, d) ys)

pub length-erase :
    (y : Pair) (ys : List Pair) → contains y ys ≡ true → suc (length (erase y ys)) ≡ length ys
unfolding contains erase
length-erase y [] h = cc
length-erase (c, d) ((e, f) ∷ ys) h = ground (arith, length-erase (c, d) ys)

-- `split` cuts the list at the first element that is not before the bound.
pub split_append : (x : Pair) (ys : List Pair) → (split x ys).0 ++ (split x ys).1 ≡ ys
unfolding split
split_append x [] = refl
split_append (a, b) ((c, d) ∷ ys) = ground (arith, split_append (a, b) ys)

pub split_lengths :
    (x : Pair) (ys : List Pair) → length (split x ys).0 + length (split x ys).1 ≡ length ys
unfolding split
split_lengths x [] = refl
split_lengths (a, b) ((c, d) ∷ ys) = ground (arith, split_lengths (a, b) ys)

AllAfter-split :
    (x y : Pair) (ys : List Pair)
    → AllAfter y ys
    → AllAfter y (split x ys).0 × AllAfter y (split x ys).1
unfolding split
AllAfter-split x y [] a = (tt, tt)
AllAfter-split x y (z ∷ ys) (p, a) = let ih = AllAfter-split x y ys a in ground arith

pub split-IsSorted :
    (x : Pair) (ys : List Pair) → IsSorted ys → IsSorted (split x ys).0 × IsSorted (split x ys).1
unfolding split
split-IsSorted x [] s = (tt, tt)
split-IsSorted x (y ∷ ys) (a, s) =
    let ih = split-IsSorted x ys s in ground (arith, AllAfter-split x y ys a)

-- What comes after every element, each element comes before.
pub AllAfter-before :
    (x y : Pair) (ys : List Pair) → AllAfter x ys → contains y ys ≡ true → before x y ≡ true
unfolding contains
AllAfter-before x y [] a h = cc
AllAfter-before (a, b) (c, d) ((e, f) ∷ ys) (p, rest) h =
    ground (arith, AllAfter-before (a, b) (c, d) ys rest)

-- The left part has the elements before the bound, the right part the others.
pub contains-split :
    (x z : Pair) (ys : List Pair)
    → IsSorted ys
    → (contains z (split x ys).0 ≡ contains z ys && before z x)
      × (contains z (split x ys).1 ≡ contains z ys && not (before z x))
unfolding split contains
contains-split x z [] s = (refl, refl)
contains-split (a, b) (e, f) ((c, d) ∷ ys) (p, s) = ground (
  arith,
  contains-split (a, b) (e, f) ys s,
  AllAfter-contains (c, d) ys p,
  AllAfter-before (c, d) (e, f) ys p,
)
