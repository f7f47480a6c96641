-- ===== src/Dates.antt =====
-- Python's `date`, as the pipeline listener uses it: days that follow one another, and their ISO
-- format.
pub mod Calendar
pub mod Iso
pub mod Spans
use celine_grid.Prelude.{
  ℕ, zero, suc, ◌+◌, ◌-◌, ◌*◌, ◌/◌, ◌%◌, Text, eqb, ltb, leb, Bool, true, false, not, ◌&&◌, ◌||◌,
  List, [], ◌∷◌, if◌then◌else◌,
}
use celine_grid.Models.{Result, ok, raise, ◌>>=◌, value_error, overflow_error}

pub record Date : Type 0 where
  pub year : ℕ
  pub month : ℕ
  pub day : ℕ

-- A day as year, month and day of the month.
abbrev pub date : (y m n : ℕ) → Date
date y m n = record { year = y; month = m; day = n }

unfoldable pub is_leap : ℕ → Bool
is_leap y = eqb (y % 4) 0 && (not (eqb (y % 100) 0) || eqb (y % 400) 0)

abbrev february : ℕ → ℕ
february y = if is_leap y then 29 else 28

unfoldable pub days_in_month : ℕ → ℕ → ℕ
days_in_month y m =
    if eqb m 9 || (eqb m 4 || eqb m 6) || eqb m 11
    then 30
    else if not (eqb m 2)
    then 31
    else february y

-- What `date(y, m, d)` checks.
unfoldable pub is_date : ℕ → ℕ → ℕ → Bool
is_date y m d = leb 1 y && leb y 9999 && leb 1 m && leb m 12 && leb 1 d && leb d (days_in_month y m)

-- The day after; after 9999-12-31 there is none.
unfoldable pub tomorrow : Date → Result Date
tomorrow t =
    if ltb t.day (days_in_month t.year t.month)
    then ok (date t.year t.month (t.day + 1))
    else if ltb t.month 12
    then ok (date t.year (t.month + 1) 1)
    else if ltb t.year 9999
    then ok (date (t.year + 1) 1 1)
    else raise overflow_error

-- `start + timedelta(days=i)`
unfoldable pub plus_days : ℕ → Date → Result Date
plus_days zero start = ok start
plus_days (suc i) start = tomorrow start >>= plus_days i

abbrev pub digit : ℕ → ℕ
digit n = b'0' + n % 10

-- `d.isoformat()`
unfoldable pub isoformat : Date → Text
isoformat t =
    digit (t.year / 1000)
    ∷ digit (t.year / 100)
    ∷ digit (t.year / 10)
    ∷ digit t.year
    ∷ b'-'
    ∷ digit (t.month / 10)
    ∷ digit t.month
    ∷ b'-'
    ∷ digit (t.day / 10)
    ∷ digit t.day
    ∷ []

abbrev pub is_ascii_digit : ℕ → Bool
is_ascii_digit c = leb b'0' c && leb c b'9'

abbrev pub checked_date : ℕ → ℕ → ℕ → Result Date
checked_date y m d = if is_date y m d then ok (date y m d) else raise value_error

abbrev pub number_of : ℕ → ℕ → ℕ
number_of c d = (c - b'0') * 10 + (d - b'0')

-- `date.fromisoformat(s)` of a text in the form of `YYYY-MM-DD`, which takes ASCII digits only.
unfoldable pub date_fromisoformat : Text → Result Date
date_fromisoformat (a ∷ b ∷ c ∷ d ∷ p ∷ m ∷ n ∷ q ∷ e ∷ f ∷ []) =
    if is_ascii_digit a
      && is_ascii_digit b
      && is_ascii_digit c
      && is_ascii_digit d
      && eqb p b'-'
      && is_ascii_digit m
      && is_ascii_digit n
      && eqb q b'-'
      && is_ascii_digit e
      && is_ascii_digit f
    then checked_date (number_of a b * 100 + number_of c d) (number_of m n) (number_of e f)
    else raise value_error
date_fromisoformat _ = raise value_error
