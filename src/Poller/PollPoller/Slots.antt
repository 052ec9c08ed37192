-- ===== src/Poller/PollPoller/Slots.antt =====
-- Lists of entries: what is at an index after an append, a write and a cut.
use event_loop.Prelude.{
  ℕ, zero, suc, ◌≡◌, refl, none, some, List, [], ◌∷◌, ◌++◌, length, get_elem?, set, take, ltb, ◌==◌,
  if◌then◌else◌, ◌<◌, arith,
}

module _ {ℓ} {A : Type ℓ} where
  pub get_elem?-snoc :
      (xs : List A) (y : A) (i : ℕ)
      → get_elem? (xs ++ y ∷ []) i ≡ (if i == length xs then some y else get_elem? xs i)
  get_elem?-snoc [] y zero = ground arith
  get_elem?-snoc [] y (suc i) = ground arith
  get_elem?-snoc (x ∷ xs) y zero = ground arith
  get_elem?-snoc (x ∷ xs) y (suc i) = ground (arith, get_elem?-snoc xs y i)

  pub get_elem?-set :
      (xs : List A) (i : ℕ) (y : A) (j : ℕ)
      → i < length xs
      → get_elem? (set xs i y) j ≡ (if j == i then some y else get_elem? xs j)
  get_elem?-set [] i y j h = absurd (omega arith)
  get_elem?-set (x ∷ xs) zero y zero h = ground arith
  get_elem?-set (x ∷ xs) zero y (suc j) h = ground arith
  get_elem?-set (x ∷ xs) (suc i) y zero h = ground arith
  get_elem?-set (x ∷ xs) (suc i) y (suc j) h = ground (arith, get_elem?-set xs i y j (omega arith))

  pub get_elem?-take :
      (n : ℕ) (xs : List A) (i : ℕ)
      → get_elem? (take n xs) i ≡ (if ltb i n then get_elem? xs i else none)
  get_elem?-take zero xs i = ground arith
  get_elem?-take (suc n) [] i = ground arith
  get_elem?-take (suc n) (x ∷ xs) zero = ground arith
  get_elem?-take (suc n) (x ∷ xs) (suc i) = ground (arith, get_elem?-take n xs i)

  pub get_elem?-lt : (xs : List A) (i : ℕ) (x : A) → get_elem? xs i ≡ some x → i < length xs
  get_elem?-lt [] i x h = absurd (ground arith)
  get_elem?-lt (y ∷ xs) zero x h = omega arith
  get_elem?-lt (y ∷ xs) (suc i) x h = omega (arith, get_elem?-lt xs i x h)

  pub get_elem?-some : (xs : List A) (i : ℕ) → i < length xs → (x : A) × (get_elem? xs i ≡ some x)
  get_elem?-some [] i h = absurd (omega arith)
  get_elem?-some (x ∷ xs) zero h = (x, refl)
  get_elem?-some (x ∷ xs) (suc i) h = get_elem?-some xs i (omega arith)
