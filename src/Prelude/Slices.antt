-- ===== src/Prelude/Slices.antt =====
-- How writes, growth and the moving of indices change a slice of a list.
use Prim.Native.Nat.{ℕ, zero, suc, ◌+◌, ◌≤◌}
use Prim.Native.Nat.add
use mathlib.Core.Path.{◌≡◌, refl, ap}
use mathlib.Core.List.{List, [], ◌∷◌, ◌++◌}
use native.Mathlib.Omega.{arith}
use event_loop.Prelude.Lists.{
  length, take, drop, slice, write_at, length-drop, take-append_left, drop-append_left,
}

module _ {ℓ} {A : Type ℓ} where
  take-write_at :
      (ys xs : List A) → length ys ≤ length xs → take (length ys) (write_at xs 0 ys) ≡ ys
  take-write_at [] xs h = refl
  take-write_at (y ∷ ys) [] h = absurd (omega arith)
  take-write_at (y ∷ ys) (x ∷ xs) h = ap (λ r. y ∷ r) (take-write_at ys xs (omega arith))

  take-write_at_end :
      (n : ℕ) (xs ys : List A)
      → n + length ys ≤ length xs
      → take (n + length ys) (write_at xs n ys) ≡ take n xs ++ ys
  take-write_at_end zero xs ys h = rw add.zero (take-write_at ys xs (omega arith))
  take-write_at_end (suc n) [] ys h = absurd (omega arith)
  take-write_at_end (suc n) (x ∷ xs) ys h =
      rw add.suc (ap (λ r. x ∷ r) (take-write_at_end n xs ys (omega arith)))

  -- A write at the end of a slice appends to it.
  pub slice-write_at_end :
      (xs ys : List A) (i n : ℕ)
      → i + n + length ys ≤ length xs
      → slice (write_at xs (i + n) ys) i (n + length ys) ≡ slice xs i n ++ ys
  slice-write_at_end xs ys zero n h = rw (add.zero n) (take-write_at_end n xs ys (omega arith))
  slice-write_at_end [] ys (suc i) n h = absurd (omega arith)
  slice-write_at_end (x ∷ xs) ys (suc i) n h =
      rw (add.suc i n) (slice-write_at_end xs ys i n (omega arith))

  -- What is written can be read back.
  pub slice-write_at_self :
      (xs ys : List A) (i : ℕ)
      → i + length ys ≤ length xs
      → slice (write_at xs i ys) i (length ys) ≡ ys
  slice-write_at_self xs ys zero h = take-write_at ys xs (omega arith)
  slice-write_at_self [] ys (suc i) h = absurd (omega arith)
  slice-write_at_self (x ∷ xs) ys (suc i) h = slice-write_at_self xs ys i (omega arith)

  take-write_at_front :
      (xs ys : List A) (n : ℕ)
      → length ys ≤ length xs
      → take (length ys + n) (write_at xs 0 ys) ≡ ys ++ slice xs (length ys) n
  take-write_at_front [] [] n h = rw add.zero
  take-write_at_front (x ∷ xs) [] n h = rw add.zero
  take-write_at_front [] (y ∷ ys) n h = absurd (omega arith)
  take-write_at_front (x ∷ xs) (y ∷ ys) n h =
      rw add.suc (ap (λ r. y ∷ r) (take-write_at_front xs ys n (omega arith)))

  -- A write that ends where a slice begins prepends to it.
  pub slice-write_at_front :
      (xs ys : List A) (i n : ℕ)
      → i + length ys ≤ length xs
      → slice (write_at xs i ys) i (length ys + n) ≡ ys ++ slice xs (i + length ys) n
  slice-write_at_front xs ys zero n h =
      rw (add.zero (length ys)) (take-write_at_front xs ys n (omega arith))
  slice-write_at_front [] ys (suc i) n h = absurd (omega arith)
  slice-write_at_front (x ∷ xs) ys (suc i) n h =
      rw (add.suc i (length ys)) (slice-write_at_front xs ys i n (omega arith))

  -- Growth leaves a slice alone.
  pub slice-append :
      (xs ys : List A) (i n : ℕ) → i + n ≤ length xs → slice (xs ++ ys) i n ≡ slice xs i n
  slice-append xs ys i n h =
      rw (drop-append_left i xs ys (omega arith))
        (take-append_left n (drop i xs) ys (omega (arith, length-drop i xs)))

  pub drop-drop : (i k : ℕ) (xs : List A) → drop (i + k) xs ≡ drop k (drop i xs)
  drop-drop zero k xs = rw add.zero
  drop-drop (suc i) k [] = rw add.suc (nil k)
    where
      nil : (k : ℕ) → [] ≡ drop {A = A} k []
      nil zero = refl
      nil (suc k) = refl
  drop-drop (suc i) k (x ∷ xs) = rw add.suc (drop-drop i k xs)

  take-drop : (n k : ℕ) (xs : List A) → take n (drop k xs) ≡ drop k (take (k + n) xs)
  take-drop n zero xs = rw add.zero
  take-drop zero (suc k) [] = rw add.suc
  take-drop (suc n) (suc k) [] = rw add.suc
  take-drop n (suc k) (x ∷ xs) = rw add.suc (take-drop n k xs)

  -- Moving the start of a slice forward drops from it.
  pub slice-drop : (xs : List A) (i k n : ℕ) → slice xs (i + k) n ≡ drop k (slice xs i (k + n))
  slice-drop xs i k n = rw (drop-drop i k xs) (take-drop n k (drop i xs))

  pub take-take : (m n : ℕ) (xs : List A) → m ≤ n → take m (take n xs) ≡ take m xs
  take-take zero n xs h = refl
  take-take (suc m) zero xs h = absurd (omega arith)
  take-take (suc m) (suc n) [] h = refl
  take-take (suc m) (suc n) (x ∷ xs) h = ap (λ r. x ∷ r) (take-take m n xs (omega arith))
