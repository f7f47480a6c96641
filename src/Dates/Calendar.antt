-- ===== src/Dates/Calendar.antt =====
-- Days are numbered without gaps from 0001-01-01 on.
use celine_grid.Prelude.{
  ℕ, ◌+◌, ◌-◌, ◌*◌, ◌/◌, ◌≤◌, ◌<◌, eqb, ltb, true, false, ◌&&◌, ◌≡◌, refl, arith, if◌then◌else◌,
  Bool-cases, inl, inr,
}
use celine_grid.Models.{Result, ok, raise, overflow_error}
use celine_grid.Dates.{Date, date, is_leap, days_in_month, is_date, tomorrow}

-- The days before a year, by the rule of the leap years, and before a month of a common year.
unfoldable pub days_before_year : ℕ → ℕ
days_before_year y = 365 * (y - 1) + ((y - 1) / 400 + (y - 1) / 4 - (y - 1) / 100)

abbrev pub days_before_month : ℕ → ℕ
days_before_month m =
    if eqb m 1
    then 0
    else if eqb m 2
    then 31
    else if eqb m 3
    then 59
    else if eqb m 4
    then 90
    else if eqb m 5
    then 120
    else if eqb m 6
    then 151
    else if eqb m 7
    then 181
    else if eqb m 8
    then 212
    else if eqb m 9
    then 243
    else if eqb m 10
    then 273
    else if eqb m 11
    then 304
    else 334

abbrev pub leap_day : ℕ → ℕ → ℕ
leap_day y m = if ltb 2 m && is_leap y then 1 else 0

-- The number of a day: 1 for 0001-01-01.
unfoldable pub ordinal : Date → ℕ
ordinal t = days_before_year t.year + (days_before_month t.month + leap_day t.year t.month) + t.day

abbrev pub max_ordinal : ℕ
max_ordinal = 3652059

abbrev pub IsDate : Date → Type 0
IsDate t = is_date t.year t.month t.day ≡ true

year_lem :
    (y : ℕ)
    → 1 ≤ y
    → days_before_year (y + 1) ≡ days_before_year y + (if is_leap y then 366 else 365)
unfolding days_before_year is_leap
year_lem y h = ground arith

month_lem :
    (y m : ℕ)
    → 1 ≤ m
    → m < 12
    → days_before_month (m + 1) + leap_day y (m + 1)
      ≡ days_before_month m + leap_day y m + days_in_month y m
unfolding days_in_month
month_lem y m h k = ground arith

-- No day of a year comes after its last.
in_year :
    (y m d : ℕ)
    → is_date y m d ≡ true
    → days_before_month m + leap_day y m + d ≤ (if is_leap y then 366 else 365)
unfolding is_date days_in_month
in_year y m d h = ground arith

years_le : (y : ℕ) → y ≤ 9999 → days_before_year y + (if is_leap y then 366 else 365) ≤ max_ordinal
unfolding days_before_year is_leap
years_le y h = ground arith

is_date-year : (y m d : ℕ) → is_date y m d ≡ true → y ≤ 9999
unfolding is_date
is_date-year y m d h = ground arith

pub ordinal-le : (t : Date) → IsDate t → ordinal t ≤ max_ordinal
unfolding ordinal
ordinal-le t h =
    omega
      (arith, in_year t.year t.month t.day h, years_le t.year (is_date-year t.year t.month t.day h))

-- What the day after `t` is: numbered one higher, or past the calendar.
abbrev pub IsNext : Date → Result Date → Type 0
IsNext t (ok u) = IsDate u × (ordinal u ≡ ordinal t + 1)
IsNext t (raise e) = (e ≡ overflow_error) × (ordinal t ≡ max_ordinal)

next_day : (y m d : ℕ) → is_date y m d ≡ true → d < days_in_month y m → is_date y m (d + 1) ≡ true
unfolding is_date
next_day y m d h k = ground arith

next_month : (y m d : ℕ) → is_date y m d ≡ true → m < 12 → is_date y (m + 1) 1 ≡ true
unfolding is_date days_in_month
next_month y m d h k = ground arith

next_year : (y m d : ℕ) → is_date y m d ≡ true → y < 9999 → is_date (y + 1) 1 1 ≡ true
unfolding is_date days_in_month
next_year y m d h k = ground arith

last_day :
    (y m d : ℕ) → is_date y m d ≡ true → ltb d (days_in_month y m) ≡ false → d ≡ days_in_month y m
unfolding is_date
last_day y m d h k = ground arith

bounds : (y m d : ℕ) → is_date y m d ≡ true → (1 ≤ y) × (1 ≤ m) × (m ≤ 12)
unfolding is_date
bounds y m d h = ground arith

december :
    (y m d : ℕ)
    → m ≡ 12
    → d ≡ days_in_month y m
    → days_before_month m + leap_day y m + d ≡ (if is_leap y then 366 else 365)
unfolding days_in_month
december y m d h k = ground arith

end_of_calendar :
    (y : ℕ) → y ≡ 9999 → days_before_year y + (if is_leap y then 366 else 365) ≡ max_ordinal
unfolding days_before_year is_leap
end_of_calendar y h = rw h refl

pub tomorrow-IsNext : (t : Date) → IsDate t → IsNext t (tomorrow t)
unfolding tomorrow ordinal
tomorrow-IsNext t h = elim (Bool-cases (ltb t.day (days_in_month t.year t.month))) [
  | inl within ↦ rw within (next_day t.year t.month t.day h (ground arith), omega arith)
  | inr last ↦
      let end = last_day t.year t.month t.day h last in
      let b = bounds t.year t.month t.day h in
      rw last (elim (Bool-cases (ltb t.month 12)) [
        | inl early ↦ rw early (
          next_month t.year t.month t.day h (ground arith),
          omega (arith, month_lem t.year t.month b.1 (ground arith), end),
        )
        | inr late ↦ rw late (new_year end (ground arith) b.0)
      ])
]
  where
    new_year :
        t.day ≡ days_in_month t.year t.month
        → t.month ≡ 12
        → 1 ≤ t.year
        → IsNext t (if ltb t.year 9999 then ok (date (t.year + 1) 1 1) else raise overflow_error)
    new_year end dec first = elim (Bool-cases (ltb t.year 9999)) [
      | inl before ↦ rw before (
        next_year t.year t.month t.day h (ground arith),
        omega (arith, year_lem t.year first, december t.year t.month t.day dec end),
      )
      | inr after ↦ rw after (
        refl,
        omega (
          arith,
          december t.year t.month t.day dec end,
          end_of_calendar t.year (ground (arith, is_date-year t.year t.month t.day h)),
        ),
      )
    ]
