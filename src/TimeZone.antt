-- ===== src/TimeZone.antt =====
-- src/TimeZone.h and src/TimeZone.cpp. A `time_t` is an integer; a `tm_year` counts from 1900 and is one too.
pub mod Utc
pub mod Search
pub mod ZoneFile
pub mod Local
mod Tests
use event_loop.Prelude.{
  ℕ, suc, ◌+◌, Bool, true, false, not, ◌||◌, Option, none, some, List, [], ◌∷◌, length, get_elem?,
  leb, ltb, ◌==◌, if◌then◌else◌, ◌-◌, Result, ok, err, check, undefined_access, ◌>>=◌, ◌>>◌, ℤ,
  pos_part, neg_part,
}

pub record Transition : Type 0 where
  pub gmttime : ℤ
  pub localtime : ℤ
  pub localtime_idx : ℕ

pub record Localtime : Type 0 where
  pub gmt_offset : ℤ
  pub is_dst : Bool
  pub arrb_idx : ℕ

pub record Data : Type 0 where
  pub transitions : List Transition
  pub localtimes : List Localtime
  pub abbreviation : List ℕ

abbrev pub ltb_ℤ : ℤ → ℤ → Bool
ltb_ℤ a b = not (leb (pos_part b + neg_part a) (pos_part a + neg_part b))

-- `Comp`, for the times in UTC or for the local ones.
abbrev pub key : Bool → Transition → ℤ
key compare_gmt t = if compare_gmt then t.gmttime else t.localtime

abbrev pub comp : Bool → Transition → Transition → Bool
comp compare_gmt lhs rhs = ltb_ℤ (key compare_gmt lhs) (key compare_gmt rhs)

abbrev pub equal : Bool → Transition → Transition → Bool
equal compare_gmt lhs rhs =
    pos_part (key compare_gmt lhs) + neg_part (key compare_gmt rhs)
    == pos_part (key compare_gmt rhs) + neg_part (key compare_gmt lhs)

-- `v[i]`, and `front`.
abbrev pub at {ℓ} : {A : Type ℓ} → Option A → Result A
at none = err undefined_access
at (some a) = ok a

-- `std::lower_bound`: the index of the first transition that is not before the sentry.
abbrev pub lower_bound : Bool → List Transition → Transition → ℕ
lower_bound compare_gmt [] sentry = 0
lower_bound compare_gmt (t ∷ ts) sentry =
    let rest = lower_bound compare_gmt ts sentry in
    if comp compare_gmt t sentry then suc rest else 0

-- The transition that `findLocaltime` takes, if the first one is not after the sentry.
unfoldable pub find_transition : List Transition → Transition → Bool → Result Transition
find_transition transitions sentry compare_gmt =
    let i = lower_bound compare_gmt transitions sentry in
    if ltb i (length transitions)
    then (at (get_elem? transitions i) >>= λ t.
        if not (equal compare_gmt sentry t)
        then check (not (i == 0)) >> at (get_elem? transitions (i - 1))
        else ok t)
    else at (get_elem? transitions (length transitions - 1))

-- Whether there is no transition, or the first is after the sentry.
abbrev pub is_before_all : List Transition → Transition → Bool → Bool
is_before_all [] sentry compare_gmt = true
is_before_all (first ∷ rest) sentry compare_gmt = comp compare_gmt sentry first

unfoldable pub find_localtime : Data → Transition → Bool → Result Localtime
unfolding find_transition
find_localtime d sentry compare_gmt =
    if is_before_all d.transitions sentry compare_gmt
    then at (get_elem? d.localtimes 0)
    else (find_transition d.transitions sentry compare_gmt >>= λ t.
        at (get_elem? d.localtimes t.localtime_idx))
