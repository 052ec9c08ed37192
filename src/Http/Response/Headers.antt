-- ===== src/Http/Response/Headers.antt =====
-- HttpResponse.h: the map of headers, in the order of its keys.
use event_loop.Prelude.{
  ◌≡◌, refl, subst, true, false, List, [], ◌∷◌, Option, none, some, if◌then◌else◌, Bool-cases, inl,
  inr, arith,
}
use event_loop.Http.Request.{Bytes, bytes_eq}
use event_loop.Http.Request.Headers.{bytes_eq-eq, bytes_eq_self}
use event_loop.Http.Response.{HttpResponse, less, place, add_header}

-- `headers_.find(key)`.
pub find : Bytes → List (Bytes × Bytes) → Option Bytes
find key [] = none
find key ((k, v) ∷ hs) = if bytes_eq k key then some v else find key hs

-- Every key in the list comes after this one.
abbrev pub AllAfter : Bytes → List (Bytes × Bytes) → Type 0
AllAfter key [] = Unit {0}
AllAfter key ((k, v) ∷ hs) = (less key k ≡ true) × AllAfter key hs

-- The keys rise.
abbrev pub IsSorted : List (Bytes × Bytes) → Type 0
IsSorted [] = Unit {0}
IsSorted ((k, v) ∷ hs) = AllAfter k hs × IsSorted hs

less_trans : (x y z : Bytes) → less x y ≡ true → less y z ≡ true → less x z ≡ true
unfolding less
less_trans [] [] z p q = cc
less_trans [] (b ∷ y) [] p q = cc
less_trans [] (b ∷ y) (c ∷ z) p q = refl
less_trans (a ∷ x) [] z p q = cc
less_trans (a ∷ x) (b ∷ y) [] p q = cc
less_trans (a ∷ x) (b ∷ y) (c ∷ z) p q = let ih = less_trans x y z in ground (arith, ih)

less_irrefl : (x : Bytes) → less x x ≡ false
unfolding less
less_irrefl [] = refl
less_irrefl (a ∷ x) = ground (arith, less_irrefl x)

-- Of two keys, one comes first if they are not equal.
less_total : (x y : Bytes) → less x y ≡ false → bytes_eq x y ≡ false → less y x ≡ true
unfolding less bytes_eq
less_total [] [] p q = cc
less_total [] (b ∷ y) p q = cc
less_total (a ∷ x) [] p q = refl
less_total (a ∷ x) (b ∷ y) p q = let ih = less_total x y in ground (arith, ih)

-- A key that comes before every key of the list comes before the new one too.
before-AllAfter :
    (j k : Bytes) (hs : List (Bytes × Bytes)) → less j k ≡ true → AllAfter k hs → AllAfter j hs
before-AllAfter j k [] h a = tt
before-AllAfter j k ((l, v) ∷ hs) h (a, rest) =
    (less_trans j k l h a, before-AllAfter j k hs h rest)

place-AllAfter :
    (j key value : Bytes) (hs : List (Bytes × Bytes))
    → less j key ≡ true
    → AllAfter j hs
    → AllAfter j (place key value hs)
unfolding place
place-AllAfter j key value [] h a = (h, tt)
place-AllAfter j key value ((k, v) ∷ hs) h (a, rest) = elim (Bool-cases (less k key)) [
  | inl goes ↦ rw goes (a, place-AllAfter j key value hs h rest)
  | inr stops ↦ elim (Bool-cases (bytes_eq k key)) [
    | inl same ↦ rw (stops, same) (h, rest)
    | inr other ↦ rw (stops, other) (h, (a, rest))
  ]
]

place-IsSorted :
    (key value : Bytes) (hs : List (Bytes × Bytes)) → IsSorted hs → IsSorted (place key value hs)
unfolding place
place-IsSorted key value [] s = (tt, tt)
place-IsSorted key value ((k, v) ∷ hs) (a, s) = elim (Bool-cases (less k key)) [
  | inl goes ↦ rw goes (place-AllAfter k key value hs goes a, place-IsSorted key value hs s)
  | inr stops ↦ elim (Bool-cases (bytes_eq k key)) [
    | inl same ↦ rw (stops, same) (subst (λ j. AllAfter j hs) (bytes_eq-eq k key same) a, s)
    | inr other ↦
        let after = less_total k key stops other in
        rw (stops, other) ((after, before-AllAfter key k hs after a), (a, s))
  ]
]

find-place :
    (key value sought : Bytes) (hs : List (Bytes × Bytes))
    → find sought (place key value hs)
      ≡ (if bytes_eq key sought then some value else find sought hs)
unfolding place find
find-place key value sought [] = refl
find-place key value sought ((k, v) ∷ hs) = ground (
  arith,
  find-place key value sought hs,
  less_irrefl k,
  bytes_eq-eq k key,
  bytes_eq-eq k sought,
  bytes_eq-eq key sought,
  bytes_eq_self k,
  bytes_eq_self sought,
)

-- For a response whose headers are in the order of their keys: `addHeader` keeps them in order, gives the
-- key its value, and leaves every other key what it had.
pub add_header_lem :
    (r : HttpResponse) (key value : Bytes)
    → IsSorted r.headers
    → IsSorted (add_header r key value).headers
      × ((sought : Bytes)
          → find sought (add_header r key value).headers
            ≡ (if bytes_eq key sought then some value else find sought r.headers))
unfolding add_header
add_header_lem r key value s =
    (place-IsSorted key value r.headers s, λ sought. find-place key value sought r.headers)
