-- ===== src/StringPiece/Order.antt =====
-- StringPiece.h: the comparisons are those of the bytes in the order of a dictionary.
use Prim.Native.Nat.{compare as compare_ℕ, Ordering}
use event_loop.Prelude.{
  ℕ, zero, suc, ◌≤◌, ◌≡◌, ◌↔◌, refl, sym, ap, subst, ◌∙◌, true, not, List, [], ◌∷◌, length, take,
  ◌==◌, if◌then◌else◌, arith, ◌<◌, ◌%◌, ◌^◌, ◌++◌, ok, lt→ltb,
}
use event_loop.StringPiece.{
  StringPiece, memcmp, as_string, is_eq, is_lt, is_gt, shorter, equals, lt, le, ge, gt, compare,
  strlen, of_string,
}

-- The order of a dictionary.
pub lex : List ℕ → List ℕ → Ordering
lex [] [] = Ordering.eq
lex [] (y ∷ ys) = Ordering.lt
lex (x ∷ xs) [] = Ordering.gt
lex (x ∷ xs) (y ∷ ys) =
    let rest = lex xs ys in
    elim (compare_ℕ x y) [
      | Ordering.lt ↦ Ordering.lt
      | Ordering.eq ↦ rest
      | Ordering.gt ↦ Ordering.gt
    ]

-- The first bytes decide, then the lengths.
abbrev settled : Ordering → ℕ → ℕ → Ordering
settled r m n = if is_eq r then compare_ℕ m n else r

memcmp-lex :
    (xs ys : List ℕ) (m n : ℕ)
    → m ≤ length xs
    → n ≤ length ys
    → settled (memcmp xs ys (shorter m n)) m n ≡ lex (take m xs) (take n ys)
unfolding memcmp lex
memcmp-lex xs ys zero zero h k = refl
memcmp-lex xs [] zero (suc n) h k = absurd (omega (arith, k))
memcmp-lex xs (y ∷ ys) zero (suc n) h k = ground arith
memcmp-lex [] ys (suc m) zero h k = absurd (omega (arith, h))
memcmp-lex (x ∷ xs) ys (suc m) zero h k = ground arith
memcmp-lex [] ys (suc m) (suc n) h k = absurd (omega (arith, h))
memcmp-lex (x ∷ xs) [] (suc m) (suc n) h k = absurd (omega (arith, k))
memcmp-lex (x ∷ xs) (y ∷ ys) (suc m) (suc n) h k = ground (arith, memcmp-lex xs ys m n)

lex_refl : (xs : List ℕ) → lex xs xs ≡ Ordering.eq
unfolding lex
lex_refl [] = refl
lex_refl (x ∷ xs) = ground (arith, lex_refl xs)

-- Only equal lists compare equal.
lex-eq : (xs ys : List ℕ) → (is_eq (lex xs ys) ≡ true) ↔ (xs ≡ ys)
unfolding lex
lex-eq xs ys =
    (lex_same xs ys, λ e. subst (λ zs. is_eq (lex xs zs) ≡ true) e (ap is_eq (lex_refl xs)))
  where
    lex_same : (xs ys : List ℕ) → is_eq (lex xs ys) ≡ true → xs ≡ ys
    lex_same [] [] h = refl
    lex_same [] (y ∷ ys) h = ground arith
    lex_same (x ∷ xs) [] h = ground arith
    lex_same (x ∷ xs) (y ∷ ys) h = ground (arith, lex_same xs ys)

-- The memory that the piece names is there.
abbrev pub IsWithin : StringPiece → Type 0
IsWithin p = p.size ≤ length p.ptr

-- For two pieces of memory that is there: compare and the four orders go by the bytes of the two, in the
-- order of a dictionary, and == holds exactly if the bytes are the same.
pub compare-lex :
    (p q : StringPiece)
    → IsWithin p
    → IsWithin q
    → (compare p q ≡ lex (as_string p) (as_string q))
      × (lt p q ≡ is_lt (lex (as_string p) (as_string q)))
      × (le p q ≡ not (is_gt (lex (as_string p) (as_string q))))
      × (ge p q ≡ not (is_lt (lex (as_string p) (as_string q))))
      × (gt p q ≡ is_gt (lex (as_string p) (as_string q)))
      × ((equals p q ≡ true) ↔ (as_string p ≡ as_string q))
unfolding compare lt le ge gt equals as_string
compare-lex p q h k =
    let e = memcmp-lex p.ptr q.ptr p.size q.size h k in
    let (l, r) = lex-eq (as_string p) (as_string q) in
    let same : equals p q ≡ is_eq (lex (as_string p) (as_string q)) = rw (← e) (ground arith) in
    (
      rw (← e) (ground arith),
      rw (← e) (ground arith),
      rw (← e) (ground arith),
      rw (← e) (ground arith),
      rw (← e) (ground arith),
      (λ x. l (sym same ∙ x), λ x. same ∙ r x),
    )

-- The bytes before the first zero.
unfoldable pub before_zero : List ℕ → List ℕ
before_zero [] = []
before_zero (x ∷ xs) = if x == 0 then [] else x ∷ before_zero xs

pub before_zero-le : (xs : List ℕ) → length (before_zero xs) ≤ length xs
unfolding before_zero
before_zero-le [] = omega arith
before_zero-le (x ∷ xs) = ground (arith, before_zero-le xs)

strlen_lem :
    (s : List ℕ)
    → (strlen (s ++ 0 ∷ []) ≡ length (before_zero s))
      × (take (length (before_zero s)) (s ++ 0 ∷ []) ≡ before_zero s)
unfolding strlen before_zero
strlen_lem [] = ground arith
strlen_lem (x ∷ xs) = ground (arith, strlen_lem xs)

-- The piece of a string that is shorter than 2 ^ 31 has not all of its bytes, but those before the first zero.
pub of_string_lem :
    (s : List ℕ)
    → length s < 2 ^ 31
    → (p : StringPiece) × (of_string s ≡ ok p) × (as_string p ≡ before_zero s)
unfolding as_string of_string
of_string_lem s h =
    let (n, bytes) = strlen_lem s in
    let small : length (before_zero s) % 2 ^ 32 ≡ length (before_zero s) =
      omega (arith, before_zero-le s, h) in
    (
      record { ptr = s ++ 0 ∷ []; size = length (before_zero s) },
      rw (n, small, lt→ltb (length (before_zero s)) (2 ^ 31) (omega (arith, before_zero-le s, h)))
          refl,
      bytes,
    )
