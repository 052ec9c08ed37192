-- ===== src/Endian/RoundTrip.antt =====
-- Endian.h: a word goes over the wire highest byte first, and comes back as it was.
use mathlib.Core.List.{reverse-reverse, reverse-cons}
use native.Mathlib.Nat.{pow-suc}
use event_loop.Prelude.{
  ℕ, zero, suc, ◌/◌, ◌^◌, ◌<◌, ◌≡◌, refl, ap, ap₂, ◌∙◌, List, [], ◌∷◌, ◌++◌, reverse, arith, length,
  length-append,
}
use event_loop.Endian.{to_bytes, of_bytes, swap_bytes}

-- Every item is a byte.
abbrev pub AreBytes : List ℕ → Type 0
AreBytes [] = Unit {0}
AreBytes (b ∷ bs) = (b < 256) × AreBytes bs

pub length-to_bytes : (k x : ℕ) → length (to_bytes k x) ≡ k
unfolding to_bytes
length-to_bytes zero x = refl
length-to_bytes (suc k) x = ap suc (length-to_bytes k (x / 256))

pub to_bytes-AreBytes : (k x : ℕ) → AreBytes (to_bytes k x)
unfolding to_bytes
to_bytes-AreBytes zero x = tt
to_bytes-AreBytes (suc k) x = (omega arith, to_bytes-AreBytes k (x / 256))

pub AreBytes-append : (xs ys : List ℕ) → AreBytes xs → AreBytes ys → AreBytes (xs ++ ys)
AreBytes-append [] ys p q = q
AreBytes-append (x ∷ xs) ys p q = (p.0, AreBytes-append xs ys p.1 q)

AreBytes-reverse : (xs : List ℕ) → AreBytes xs → AreBytes (reverse xs)
AreBytes-reverse [] p = tt
AreBytes-reverse (x ∷ xs) p =
    rw (reverse-cons x xs)
      (AreBytes-append (reverse xs) (x ∷ []) (AreBytes-reverse xs p.1) (p.0, tt))

pub length-reverse : (xs : List ℕ) → length (reverse xs) ≡ length xs
length-reverse [] = refl
length-reverse (x ∷ xs) =
    rw (reverse-cons x xs, length-append (reverse xs) (x ∷ [])) (omega (arith, length-reverse xs))

pub to_bytes-of_bytes : (bs : List ℕ) → AreBytes bs → to_bytes (length bs) (of_bytes bs) ≡ bs
unfolding to_bytes of_bytes
to_bytes-of_bytes [] p = refl
to_bytes-of_bytes (b ∷ bs) p =
    ap₂ ◌∷◌ (omega (arith, p.0))
      (ap (to_bytes (length bs)) (omega (arith, p.0)) ∙ to_bytes-of_bytes bs p.1)

pub of_bytes-to_bytes : (k x : ℕ) → x < 256 ^ k → of_bytes (to_bytes k x) ≡ x
unfolding to_bytes of_bytes
of_bytes-to_bytes zero x h = omega arith
of_bytes-to_bytes (suc k) x h =
    omega (arith, of_bytes-to_bytes k (x / 256) (omega (arith, pow-suc 256 k)))

-- The bytes in memory after the conversion are those before it, in the opposite order.
pub to_bytes-swap_bytes : (k x : ℕ) → to_bytes k (swap_bytes k x) ≡ reverse (to_bytes k x)
unfolding swap_bytes
to_bytes-swap_bytes k x =
    ap (λ n. to_bytes n (of_bytes (reverse (to_bytes k x)))) width
    ∙ to_bytes-of_bytes (reverse (to_bytes k x))
        (AreBytes-reverse (to_bytes k x) (to_bytes-AreBytes k x))
  where
    width : k ≡ length (reverse (to_bytes k x))
    width = omega (arith, length-reverse (to_bytes k x), length-to_bytes k x)

-- Swapping twice gives the word back.
pub swap_bytes-swap_bytes : (k x : ℕ) → x < 256 ^ k → swap_bytes k (swap_bytes k x) ≡ x
unfolding swap_bytes
swap_bytes-swap_bytes k x h =
    ap (λ bs. of_bytes (reverse bs)) (to_bytes-swap_bytes k x)
    ∙ ap of_bytes (reverse-reverse (to_bytes k x))
    ∙ of_bytes-to_bytes k x h

swap_bytes32_test : swap_bytes 4 0x01020304 ≡ 0x04030201
unfolding swap_bytes
swap_bytes32_test = refl

-- The bytes on the wire, read as a word and swapped, are the word.
pub swap_bytes-of_bytes :
    (k x : ℕ) → x < 256 ^ k → swap_bytes k (of_bytes (reverse (to_bytes k x))) ≡ x
unfolding swap_bytes
swap_bytes-of_bytes k x h = swap_bytes-swap_bytes k x h
