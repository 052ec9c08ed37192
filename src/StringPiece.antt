-- ===== src/StringPiece.antt =====
-- src/StringPiece.h: a view of bytes. `ptr` is what the memory holds from the pointer on; of an `int` that memcmp
-- gives, the sign matters alone, which is an Ordering.
pub mod Order
mod Tests
use Prim.Native.Nat.{compare as compare_ℕ, Ordering}
use event_loop.Prelude.{
  ℕ, zero, suc, ◌-◌, Bool, true, false, not, ◌&&◌, ◌||◌, List, [], ◌∷◌, ◌++◌, length, take, drop,
  ◌%◌, ◌^◌, Result, ok, err, undefined_access, ltb, leb, ◌==◌, if◌then◌else◌,
}

pub record StringPiece : Type 0 where
  pub ptr : List ℕ
  pub size : ℕ

-- strlen(3), and memcmp(3) of so many bytes.
unfoldable pub strlen : List ℕ → ℕ
strlen [] = 0
strlen (x ∷ xs) = let rest = strlen xs in if x == 0 then 0 else suc rest

unfoldable pub memcmp : List ℕ → List ℕ → ℕ → Ordering
memcmp xs ys zero = Ordering.eq
memcmp [] ys (suc n) = Ordering.eq
memcmp (x ∷ xs) [] (suc n) = Ordering.eq
memcmp (x ∷ xs) (y ∷ ys) (suc n) =
    let rest = memcmp xs ys n in
    elim (compare_ℕ x y) [
      | Ordering.lt ↦ Ordering.lt
      | Ordering.eq ↦ rest
      | Ordering.gt ↦ Ordering.gt
    ]

-- The piece of a string goes to its first zero byte. The length is cast to an `int`: where that is negative, the
-- piece has no bytes that may be read, and the model ends.
unfoldable pub of_string : List ℕ → Result StringPiece
unfolding strlen
of_string s =
    let n = strlen (s ++ 0 ∷ []) % 2 ^ 32 in
    if ltb n (2 ^ 31) then ok (record { ptr = s ++ 0 ∷ []; size = n }) else err undefined_access

-- Cutting off more than there is leaves a negative length, which the model has not.
unfoldable pub remove_prefix : StringPiece → ℕ → Result StringPiece
remove_prefix p n =
    if leb n p.size
    then ok (record { ptr = drop n p.ptr; size = p.size - n })
    else err undefined_access

unfoldable pub remove_suffix : StringPiece → ℕ → Result StringPiece
remove_suffix p n =
    if leb n p.size then ok (record p { size = p.size - n }) else err undefined_access

unfoldable pub as_string : StringPiece → List ℕ
as_string p = take p.size p.ptr

abbrev pub is_eq : Ordering → Bool
is_eq Ordering.lt = false
is_eq Ordering.eq = true
is_eq Ordering.gt = false

abbrev pub is_lt : Ordering → Bool
is_lt Ordering.lt = true
is_lt Ordering.eq = false
is_lt Ordering.gt = false

abbrev pub is_gt : Ordering → Bool
is_gt Ordering.lt = false
is_gt Ordering.eq = false
is_gt Ordering.gt = true

abbrev pub shorter : ℕ → ℕ → ℕ
shorter m n = if ltb m n then m else n

unfoldable pub equals : StringPiece → StringPiece → Bool
equals p q = p.size == q.size && is_eq (memcmp p.ptr q.ptr p.size)

-- STRINGPIECE_BINARY_PREDICATE, of the test of the sign and that of the sizes.
abbrev pub binary_predicate : (Ordering → Bool) → (ℕ → ℕ → Bool) → StringPiece → StringPiece → Bool
binary_predicate auxcmp cmp p q =
    let r = memcmp p.ptr q.ptr (shorter p.size q.size) in auxcmp r || (is_eq r && cmp p.size q.size)

unfoldable pub lt : StringPiece → StringPiece → Bool
lt = binary_predicate is_lt ltb

unfoldable pub le : StringPiece → StringPiece → Bool
le = binary_predicate is_lt leb

unfoldable pub ge : StringPiece → StringPiece → Bool
ge = binary_predicate is_gt (λ m n. leb n m)

unfoldable pub gt : StringPiece → StringPiece → Bool
gt = binary_predicate is_gt (λ m n. ltb n m)

unfoldable pub compare : StringPiece → StringPiece → Ordering
compare p q =
    let r = memcmp p.ptr q.ptr (shorter p.size q.size) in
    if is_eq r
    then (if ltb p.size q.size then Ordering.lt else if ltb q.size p.size then Ordering.gt else r)
    else r

unfoldable pub starts_with : StringPiece → StringPiece → Bool
starts_with p q = leb q.size p.size && is_eq (memcmp p.ptr q.ptr q.size)
