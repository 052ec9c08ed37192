-- ===== src/Date/RoundTrip.antt =====
-- Date.cpp: day numbers and dates, there and back.
use event_loop.Prelude.{
  ℕ, ◌+◌, ◌-◌, ◌*◌, ◌/◌, ◌%◌, ◌≤◌, ◌<◌, ◌^◌, ◌≡◌, refl, sym, ap, subst, ◌∙◌, arith, true, inl, inr,
  Bool-cases, leb, leb→le, Bool, ◌==◌, if◌then◌else◌,
}
use event_loop.Date.{YearMonthDay, get_julian_day_number, get_year_month_day}

-- The days of the centuries before century `b`, and of the years before its year `d`.
century_lem : (b : ℕ) → b * 146097 / 4 ≡ 36524 * b + b / 4
century_lem b = omega arith

year_lem : (d : ℕ) → 1461 * d / 4 ≡ 365 * d + d / 4
year_lem d = omega arith

-- The century of a day, and the days after its start.
century_range :
    (a : ℕ)
    → ((4 * a + 3) / 146097 * 146097 / 4 ≤ a) × (a - (4 * a + 3) / 146097 * 146097 / 4 ≤ 36524)
century_range a = (omega arith, omega arith)

year_range :
    (c : ℕ) → (1461 * ((4 * c + 3) / 1461) / 4 ≤ c) × (c - 1461 * ((4 * c + 3) / 1461) / 4 ≤ 365)
year_range c = (omega arith, omega arith)

-- The number of a year that starts in March.
march_lem :
    (b d : ℕ)
    → d < 100
    → (b * 100 + d) * 365 + (b * 100 + d) / 4 + (b * 100 + d) / 400
      ≡ 36524 * b + b / 4 + 365 * d + d / 4 + (b * 100 + d) / 100
march_lem b d h = omega arith

-- The months from March on, and the days before them.
month_lem : (e : ℕ) → e ≤ 365 → ((5 * e + 2) / 153 ≤ 11) × ((153 * ((5 * e + 2) / 153) + 2) / 5 ≤ e)
month_lem e h = (omega arith, omega arith)

back_lem : (m : ℕ) → m ≤ 11 → (14 - (m + 3 - 12 * (m / 10))) / 12 ≡ m / 10
back_lem m h = omega arith

-- The number of a day that is given by its century, the year in it from March on, and the day of that year.
number_lem :
    (b d e m : ℕ)
    → d < 100
    → 4800 ≤ b * 100 + d
    → m ≤ 11
    → (153 * m + 2) / 5 ≤ e
    → get_julian_day_number
          (b * 100 + d - 4800 + m / 10)
          (m + 3 - 12 * (m / 10))
          (e - (153 * m + 2) / 5 + 1)
        + 32044
      ≡ 36524 * b + b / 4 + 365 * d + d / 4 + e
unfolding get_julian_day_number
number_lem b d e m p q r s =
    let y : b * 100 + d - 4800 + m / 10 + 4800 - m / 10 ≡ b * 100 + d = omega arith in
    let k : m + 3 - 12 * (m / 10) + 12 * (m / 10) - 3 ≡ m = omega arith in
    rw (back_lem m r, y, k) (omega (arith, march_lem b d p))

same_lem : (x y n z : ℕ) → x + n ≡ z → y + n ≡ z → x ≡ y
same_lem x y n z e g = omega arith

-- For a day from March of the year 0 on: the number of the date that getYearMonthDay gives is the day's, and
-- the month is one of twelve.
pub julian_day_number-year_month_day :
    (j : ℕ)
    → 1721120 ≤ j
    → (get_julian_day_number
          (get_year_month_day j).year
          (get_year_month_day j).month
          (get_year_month_day j).day
        ≡ j)
      × ((1 ≤ (get_year_month_day j).month) × ((get_year_month_day j).month ≤ 12))
unfolding get_year_month_day
julian_day_number-year_month_day j h =
    let a : ℕ = j + 32044 in
    let b : ℕ = (4 * a + 3) / 146097 in
    let c : ℕ = a - b * 146097 / 4 in
    let d : ℕ = (4 * c + 3) / 1461 in
    let e : ℕ = c - 1461 * d / 4 in
    let (b_le, c_le) = century_range a in
    let (d_le, e_le) = year_range c in
    let (m_le, days_le) = month_lem e e_le in
    let whole : a ≡ 36524 * b + b / 4 + 365 * d + d / 4 + e =
      omega (arith, century_lem b, year_lem d, b_le, d_le) in
    let below : d < 100 = omega (arith, c_le) in
    let after : 4800 ≤ b * 100 + d = omega (arith, whole, e_le, h, below) in
    let number = number_lem b d e ((5 * e + 2) / 153) below after m_le days_le in
    (same_lem _ j 32044 _ number whole, (omega (arith, m_le), omega (arith, m_le)))

-- The days of a month.
abbrev pub is_leap : ℕ → Bool
is_leap y = if y % 100 == 0 then y % 400 == 0 else y % 4 == 0

-- Thirty-one days in every other month from January on, and again from August on.
abbrev pub month_length : Bool → ℕ → ℕ
month_length leap m = if m == 2 then 28 + (if leap then 1 else 0) else 30 + (m + m / 8) % 2

abbrev pub days_in_month : ℕ → ℕ → ℕ
days_in_month y m = month_length (is_leap y) m

-- A day of the year `r` of century `b`, from March on: the last is only there if February has 29 days.
data IsDayOf (b r e : ℕ) : Type 0 where
  in_every_year : e ≤ 364 → IsDayOf b r e
  in_leap_year : e ≤ 365 → r % 4 ≡ 3 → (r ≡ 99 → b % 4 ≡ 3) → IsDayOf b r e

read_century :
    (b r e : ℕ)
    → r < 100
    → IsDayOf b r e
    → (4 * (36524 * b + b / 4 + 365 * r + r / 4 + e) + 3) / 146097 ≡ b
read_century b r e h (in_every_year k) = omega arith
read_century b r e h (in_leap_year k q s) = ground arith

read_year : (b r e : ℕ) → r < 100 → IsDayOf b r e → (4 * (365 * r + r / 4 + e) + 3) / 1461 ≡ r
read_year b r e h (in_every_year k) = omega arith
read_year b r e h (in_leap_year k q s) = omega arith

-- The date of a day that is given by its century, year and day from March on.
date_lem :
    (j b r e : ℕ)
    → r < 100
    → IsDayOf b r e
    → j + 32044 ≡ 36524 * b + b / 4 + 365 * r + r / 4 + e
    → get_year_month_day j ≡ record {
      day = e - (153 * ((5 * e + 2) / 153) + 2) / 5 + 1;
      month = (5 * e + 2) / 153 + 3 - 12 * ((5 * e + 2) / 153 / 10);
      year = b * 100 + r - 4800 + (5 * e + 2) / 153 / 10;
    }
unfolding get_year_month_day
date_lem j b r e h k g =
    let century : (4 * (j + 32044) + 3) / 146097 ≡ b =
      ap (λ x. (4 * x + 3) / 146097) g ∙ read_century b r e h k in
    let rest : j + 32044 - b * 146097 / 4 ≡ 365 * r + r / 4 + e = omega (arith, century_lem b, g) in
    let year : (4 * (365 * r + r / 4 + e) + 3) / 1461 ≡ r = read_year b r e h k in
    let day : 365 * r + r / 4 + e - 1461 * r / 4 ≡ e = omega (arith, year_lem r) in
    rw (century, rest, year, day) refl

-- The day of the year from March on, as the number is computed.
abbrev day_of : ℕ → ℕ → ℕ
day_of m d = d - 1 + (153 * (m + 12 * ((14 - m) / 12) - 3) + 2) / 5

abbrev year_of : ℕ → ℕ → ℕ
year_of y m = y + 4800 - (14 - m) / 12

leap_day :
    (y : ℕ) → is_leap y ≡ true → IsDayOf (year_of y 2 / 100) (year_of y 2 % 100) (day_of 2 29)
leap_day y k = in_leap_year (omega arith) (ground arith) (λ e. ground arith)

day_of_range :
    (y m d : ℕ)
    → 1 ≤ m
    → m ≤ 12
    → 1 ≤ d
    → d ≤ days_in_month y m
    → IsDayOf (year_of y m / 100) (year_of y m % 100) (day_of m d)
day_of_range y m d p q r s = elim (Bool-cases (leb (day_of m d) 364)) [
  | inl e ↦ in_every_year (leb→le _ _ e)
  | inr e ↦
      let late : 365 ≤ day_of m d = ground arith in
      let february : m ≡ 2 = ground arith in
      let last : d ≡ 29 = ground arith in
      let leap : is_leap y ≡ true = ground arith in
      subst (λ n. IsDayOf (year_of y n / 100) (year_of y n % 100) (day_of n d)) (sym february)
        (subst (λ n. IsDayOf (year_of y 2 / 100) (year_of y 2 % 100) (day_of 2 n)) (sym last)
          (leap_day y leap))
]

forward_lem :
    (y m d : ℕ)
    → 1 ≤ m
    → m ≤ 12
    → 1 ≤ d
    → get_julian_day_number y m d + 32044
      ≡ 36524 * (year_of y m / 100)
        + year_of y m / 100 / 4
        + 365 * (year_of y m % 100)
        + year_of y m % 100 / 4
        + day_of m d
unfolding get_julian_day_number
forward_lem y m d p q r = omega (arith)

-- What is read from the day of the year.
month_of_lem :
    (m d : ℕ)
    → 1 ≤ m
    → m ≤ 12
    → 1 ≤ d
    → d ≤ month_length true m
    → (5 * day_of m d + 2) / 153 ≡ m + 12 * ((14 - m) / 12) - 3
month_of_lem m d p q r s = ground arith

abbrev date : ℕ → ℕ → ℕ → YearMonthDay
date y m d = record { year = y; month = m; day = d }

days_lem : (m d : ℕ) → 1 ≤ m → m ≤ 12 → 1 ≤ d → d ≤ month_length true m → day_of m d ≤ 365
days_lem m d p q r s = ground arith

-- For a date of the calendar, from the year 1 to the year 1400000: the date that getYearMonthDay gives for its
-- number is the date. Four times the day, the largest number that the two functions compute, is an int.
pub year_month_day-julian_day_number :
    (y m d : ℕ)
    → 1 ≤ y
    → y ≤ 1400000
    → 1 ≤ m
    → m ≤ 12
    → 1 ≤ d
    → d ≤ days_in_month y m
    → (get_year_month_day (get_julian_day_number y m d) ≡ record { year = y; month = m; day = d })
      × (4 * (get_julian_day_number y m d + 32044) + 3 < 2 ^ 31)
year_month_day-julian_day_number y m d o most p q r s =
    let month = month_of_lem m d p q r (ground arith) in
    let k : ℕ = m + 12 * ((14 - m) / 12) - 3 in
    let same_year : year_of y m / 100 * 100 + year_of y m % 100 - 4800 + k / 10 ≡ y = omega arith in
    let same_month : k + 3 - 12 * (k / 10) ≡ m = omega arith in
    let same_day : day_of m d - (153 * k + 2) / 5 + 1 ≡ d = omega arith in
    (
      date_lem (get_julian_day_number y m d) (year_of y m / 100) (year_of y m % 100) (day_of m d)
            (omega arith) (day_of_range y m d p q r s) (forward_lem y m d p q r)
          ∙ (rw month (
              ap (λ x. date x (k + 3 - 12 * (k / 10)) (day_of m d - (153 * k + 2) / 5 + 1))
                same_year
              ∙ (ap (λ x. date y x (day_of m d - (153 * k + 2) / 5 + 1)) same_month
                  ∙ ap (date y m) same_day))),
      omega (arith, forward_lem y m d p q r, days_lem m d p q r (ground arith)),
    )
