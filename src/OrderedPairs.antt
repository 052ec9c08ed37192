-- ===== src/OrderedPairs.antt =====
-- A `std::set` of pairs, in the order of its elements: the list of them.
pub mod Laws
use event_loop.Prelude.{
  ℕ, Bool, true, false, ◌&&◌, ◌||◌, List, [], ◌∷◌, ltb, ◌==◌, if◌then◌else◌, ◌≡◌,
}

abbrev pub Pair : Type 0
Pair = ℕ × ℕ

-- `<` and `==` of pairs.
abbrev pub before : Pair → Pair → Bool
before (a, b) (c, d) = ltb a c || (a == c && ltb b d)

abbrev pub same : Pair → Pair → Bool
same (a, b) (c, d) = a == c && b == d

unfoldable pub contains : Pair → List Pair → Bool
contains x [] = false
contains x (y ∷ ys) = same x y || contains x ys

unfoldable pub insert : Pair → List Pair → List Pair
insert x [] = x ∷ []
insert x (y ∷ ys) =
    let rest = insert x ys in
    if before x y then x ∷ y ∷ ys else (if same x y then y ∷ ys else y ∷ rest)

unfoldable pub erase : Pair → List Pair → List Pair
erase x [] = []
erase x (y ∷ ys) = let rest = erase x ys in if same x y then ys else y ∷ rest

-- The elements before `lower_bound(x)`, and those from it on.
unfoldable pub split : Pair → List Pair → List Pair × List Pair
split x [] = ([], [])
split x (y ∷ ys) =
    let (left, right) = split x ys in if before y x then (y ∷ left, right) else ([], y ∷ ys)

-- Every element comes after this one.
abbrev pub AllAfter : Pair → List Pair → Type 0
AllAfter x [] = Unit {0}
AllAfter x (y ∷ ys) = (before x y ≡ true) × AllAfter x ys

abbrev pub IsSorted : List Pair → Type 0
IsSorted [] = Unit {0}
IsSorted (y ∷ ys) = AllAfter y ys × IsSorted ys
