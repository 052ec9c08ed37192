-- ===== src/TimeZone/Search.antt =====
-- TimeZone.cpp, findLocaltime: which local time a time has.
use native.Mathlib.Nat.{eq-zero-or-pos}
use event_loop.Prelude.{
  ℕ, zero, suc, ◌-◌, ◌≤◌, ◌<◌, ◌≡◌, refl, sym, ap, ◌∙◌, inl, inr, Bool, true, false, none, some,
  List, [], ◌∷◌, length, get_elem?, ltb, ltb→lt, Bool-cases, ok, arith,
}
use event_loop.TimeZone.{
  Transition, Localtime, Data, comp, equal, lower_bound, find_transition, is_before_all,
  find_localtime,
}

pub get_elem_lem :
    {A : Type 0} (xs : List A) (i : ℕ) → i < length xs → (x : A) × (get_elem? xs i ≡ some x)
get_elem_lem [] i h = absurd (omega arith)
get_elem_lem (x ∷ xs) zero h = (x, refl)
get_elem_lem (x ∷ xs) (suc i) h = get_elem_lem xs i (omega arith)

get_elem-none : {A : Type 0} (xs : List A) → get_elem? xs (length xs) ≡ none
get_elem-none [] = refl
get_elem-none (x ∷ xs) = get_elem-none xs

module _ (b : Bool) (sentry : Transition) where
  lower_bound_range : (ts : List Transition) → lower_bound b ts sentry ≤ length ts
  lower_bound_range [] = omega arith
  lower_bound_range (t ∷ ts) = ground (arith, lower_bound_range ts)

  -- What is before the index is before the sentry.
  lower_bound-before :
      (ts : List Transition) (i : ℕ) (t : Transition)
      → i < lower_bound b ts sentry
      → get_elem? ts i ≡ some t
      → comp b t sentry ≡ true
  lower_bound-before [] i t h e = absurd (omega arith)
  lower_bound-before (u ∷ us) zero t h e = ground arith
  lower_bound-before (u ∷ us) (suc i) t h e = lower_bound-before us i t (ground arith) e

  -- What is at the index is not.
  lower_bound-at :
      (ts : List Transition) (t : Transition)
      → get_elem? ts (lower_bound b ts sentry) ≡ some t
      → comp b t sentry ≡ false
  lower_bound-at [] t e = ground arith
  lower_bound-at (u ∷ us) t e = elim (Bool-cases (comp b u sentry)) [
    | inl g ↦ lower_bound-at us t (ground arith)
    | inr g ↦ ground arith
  ]

-- The transition at an index is in force: it is not after the sentry, and the next one is.
pub record IsInForce (ts : List Transition) (sentry : Transition) (b : Bool) (i : ℕ)
    (t : Transition) : Type 0 where
  pub at_index : get_elem? ts i ≡ some t
  pub not_after : comp b sentry t ≡ false
  pub next_after : (u : Transition) → get_elem? ts (suc i) ≡ some u → comp b sentry u ≡ true

-- The times of the transitions increase.
abbrev pub IsIncreasing : Bool → List Transition → Type 0
IsIncreasing b ts =
    (i : ℕ) (t u : Transition)
    → get_elem? ts i ≡ some t
    → get_elem? ts (suc i) ≡ some u
    → comp b t u ≡ true

module _ (ts : List Transition) (sentry : Transition) (b : Bool) where
  -- No transition is at or after the sentry.
  last_lem :
      0 < length ts
      → lower_bound b ts sentry ≡ length ts
      → (t : Transition) × ((find_transition ts sentry b ≡ ok t)
          × IsInForce ts sentry b (length ts - 1) t)
  unfolding find_transition
  last_lem n e =
      let (t, g) = get_elem_lem ts (length ts - 1) (omega arith) in
      let before = lower_bound-before b sentry ts (length ts - 1) t (omega (arith, e)) g in
      let end : suc (length ts - 1) ≡ length ts = omega arith in
      (
        t,
        (
          ground (arith, e, g),
          record {
            at_index = g;
            not_after = ground (arith, before);
            next_after = λ u k. absurd (ground (arith, k, end, get_elem-none ts));
          },
        ),
      )

  -- A transition at the sentry.
  equal_lem :
      (t : Transition)
      → lower_bound b ts sentry < length ts
      → get_elem? ts (lower_bound b ts sentry) ≡ some t
      → equal b sentry t ≡ true
      → IsIncreasing b ts
      → (find_transition ts sentry b ≡ ok t) × IsInForce ts sentry b (lower_bound b ts sentry) t
  unfolding find_transition
  equal_lem t n g e inc = (
    ground (arith, n, g, e),
    record {
      at_index = g;
      not_after = ground (arith, e);
      next_after = λ u k. let h = inc _ t u g k in ground arith;
    },
  )

  -- A transition after the sentry, which is not the first.
  after_lem :
      (first t : Transition)
      → get_elem? ts 0 ≡ some first
      → comp b sentry first ≡ false
      → lower_bound b ts sentry < length ts
      → get_elem? ts (lower_bound b ts sentry) ≡ some t
      → equal b sentry t ≡ false
      → (u : Transition) × ((find_transition ts sentry b ≡ ok u)
          × IsInForce ts sentry b (lower_bound b ts sentry - 1) u)
  unfolding find_transition
  after_lem first t f c n g e =
      let late = lower_bound-at b sentry ts t g in
      let after : comp b sentry t ≡ true = ground (arith, late, e) in
      let i : ℕ = lower_bound b ts sentry in
      let positive : 0 < i = elim (eq-zero-or-pos i) [
        | inl z ↦
            let same : some t ≡ some first = sym g ∙ (ap (get_elem? ts) z ∙ f) in
            absurd (ground arith)
        | inr p ↦ p
      ] in
      let (u, k) = get_elem_lem ts (i - 1) (omega (arith, n)) in
      let before = lower_bound-before b sentry ts (i - 1) u (omega (arith, positive)) k in
      let next : suc (i - 1) ≡ i = omega (arith, positive) in
      (
        u,
        (
          ground (arith, n, g, e, positive, k),
          record {
            at_index = k;
            not_after = ground (arith, before);
            next_after = λ v h. ground (arith, h, next, g, after);
          },
        ),
      )

find_transition_lem :
    (ts : List Transition) (sentry : Transition) (b : Bool) (first : Transition)
    → get_elem? ts 0 ≡ some first
    → comp b sentry first ≡ false
    → IsIncreasing b ts
    → (t : Transition) × ((find_transition ts sentry b ≡ ok t)
        × ((i : ℕ) × IsInForce ts sentry b i t))
find_transition_lem ts sentry b first f c inc =
    elim (Bool-cases (ltb (lower_bound b ts sentry) (length ts))) [
      | inl n ↦
          let less = ltb→lt _ _ n in
          let (t, g) = get_elem_lem ts (lower_bound b ts sentry) less in
          elim (Bool-cases (equal b sentry t)) [
            | inl e ↦ let (k, v) = equal_lem ts sentry b t less g e inc in (t, (k, (_, v)))
            | inr e ↦
                let (u, (k, v)) = after_lem ts sentry b first t f c less g e in (u, (k, (_, v)))
          ]
      | inr n ↦
          let (u, (k, v)) =
            last_lem ts sentry b (some_length ts f)
              (ground (arith, n, lower_bound_range b sentry ts)) in
          (u, (k, (_, v)))
    ]
  where
    some_length : (us : List Transition) → get_elem? us 0 ≡ some first → 0 < length us
    some_length [] e = absurd (ground arith)
    some_length (u ∷ us) e = omega arith

-- The local time that a sentry has.
pub data IsLocaltimeOf (d : Data) (sentry : Transition) (b : Bool) (l : Localtime) : Type 0 where
  at_first :
      is_before_all d.transitions sentry b ≡ true
      → get_elem? d.localtimes 0 ≡ some l
      → IsLocaltimeOf d sentry b l
  in_force :
      (i : ℕ) (t : Transition)
      → IsInForce d.transitions sentry b i t
      → get_elem? d.localtimes t.localtime_idx ≡ some l
      → IsLocaltimeOf d sentry b l

-- In a zone with some local time, whose transitions increase in time and each name a local time of the zone:
-- findLocaltime fails no assertion and reads nothing out of range. It gives the first local time if no
-- transition is at or before the sentry, and otherwise that of the transition at or before the
-- sentry which is followed by none, or by one after the sentry.
pub find_localtime_lem :
    (d : Data) (sentry : Transition) (b : Bool)
    → 0 < length d.localtimes
    → ((i : ℕ) (t : Transition)
        → get_elem? d.transitions i ≡ some t
        → t.localtime_idx < length d.localtimes)
    → IsIncreasing b d.transitions
    → (l : Localtime) × ((find_localtime d sentry b ≡ ok l) × IsLocaltimeOf d sentry b l)
unfolding find_localtime
find_localtime_lem d sentry b n named inc =
    elim (Bool-cases (is_before_all d.transitions sentry b)) [
      | inl e ↦
          let (l, g) = get_elem_lem d.localtimes 0 n in (l, (ground (arith, e, g), at_first e g))
      | inr e ↦
          let (first, (f, c)) = first_lem d.transitions e in
          let (t, (k, (i, v))) = find_transition_lem d.transitions sentry b first f c inc in
          let (l, g) = get_elem_lem d.localtimes t.localtime_idx (named i t v.at_index) in
          (l, (ground (arith, e, k, g), in_force i t v g))
    ]
  where
    first_lem :
        (ts : List Transition)
        → is_before_all ts sentry b ≡ false
        → (first : Transition) × ((get_elem? ts 0 ≡ some first) × (comp b sentry first ≡ false))
    first_lem [] e = absurd (ground arith)
    first_lem (first ∷ rest) e = (first, (refl, e))
