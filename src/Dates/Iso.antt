-- ===== src/Dates/Iso.antt =====
-- The ISO format and its reading are inverse to one another.
use celine_grid.Prelude.{
  ℕ, ◌+◌, ◌*◌, ◌/◌, ◌≤◌, Text, eqb, Bool, true, ◌&&◌, [], ◌∷◌, ◌≡◌, refl, arith, if◌then◌else◌,
}
use celine_grid.Models.{Error, Result, ok, raise, value_error}
use celine_grid.Dates.{
  Date, date, is_date, digit, is_ascii_digit, number_of, checked_date, isoformat,
  date_fromisoformat,
}
use celine_grid.Dates.Calendar.{IsDate}

fields_le : (y m d : ℕ) → is_date y m d ≡ true → (y ≤ 9999) × (m ≤ 12) × (d ≤ 31)
unfolding is_date celine_grid.Dates.days_in_month
fields_le y m d h = ground arith

digit-is_ascii : (n : ℕ) → is_ascii_digit (digit n) ≡ true
digit-is_ascii n = ground arith

year_digits :
    (y : ℕ)
    → y ≤ 9999
    → number_of (digit (y / 1000)) (digit (y / 100)) * 100 + number_of (digit (y / 10)) (digit y)
      ≡ y
year_digits y h = omega arith

two_digits : (n : ℕ) → n ≤ 99 → number_of (digit (n / 10)) (digit n) ≡ n
two_digits n h = omega arith

pub date_fromisoformat-isoformat : (t : Date) → IsDate t → date_fromisoformat (isoformat t) ≡ ok t
unfolding date_fromisoformat isoformat
date_fromisoformat-isoformat t h =
    simp
      (
        digit-is_ascii,
        year_digits t.year (fields_le t.year t.month t.day h).0,
        two_digits t.month (omega (arith, fields_le t.year t.month t.day h)),
        two_digits t.day (omega (arith, fields_le t.year t.month t.day h)),
        h,
      )
      refl

tested :
    (form : Bool) (y m d : ℕ) (t : Date)
    → (if form then checked_date y m d else raise value_error) ≡ ok t
    → (form ≡ true) × (is_date y m d ≡ true) × (t ≡ date y m d)
tested form y m d t h = ground arith

year_read :
    (a b c d : ℕ)
    → is_ascii_digit a ≡ true
    → is_ascii_digit b ≡ true
    → is_ascii_digit c ≡ true
    → is_ascii_digit d ≡ true
    → let y = number_of a b * 100 + number_of c d in
      (digit (y / 1000) ≡ a) × (digit (y / 100) ≡ b) × (digit (y / 10) ≡ c) × (digit y ≡ d)
year_read a b c d ha hb hc hd = ground arith

two_read :
    (a b : ℕ)
    → is_ascii_digit a ≡ true
    → is_ascii_digit b ≡ true
    → (digit (number_of a b / 10) ≡ a) × (digit (number_of a b) ≡ b)
two_read a b ha hb = ground arith

-- What the form of ten characters says of each.
record HasForm (a b c d p m n q e f : ℕ) : Type 0 where
  year_a : is_ascii_digit a ≡ true
  year_b : is_ascii_digit b ≡ true
  year_c : is_ascii_digit c ≡ true
  year_d : is_ascii_digit d ≡ true
  dash_p : p ≡ b'-'
  month_m : is_ascii_digit m ≡ true
  month_n : is_ascii_digit n ≡ true
  dash_q : q ≡ b'-'
  day_e : is_ascii_digit e ≡ true
  day_f : is_ascii_digit f ≡ true

split : (a b : Bool) → (a && b) ≡ true → (a ≡ true) × (b ≡ true)
split a b h = ground arith

form-HasForm :
    (a b c d p m n q e f : ℕ)
    → (is_ascii_digit a
        && is_ascii_digit b
        && is_ascii_digit c
        && is_ascii_digit d
        && eqb p b'-'
        && is_ascii_digit m
        && is_ascii_digit n
        && eqb q b'-'
        && is_ascii_digit e
        && is_ascii_digit f)
      ≡ true
    → HasForm a b c d p m n q e f
form-HasForm a b c d p m n q e f h0 =
    let h1 = split _ _ h0 in
    let h2 = split _ _ h1.0 in
    let h3 = split _ _ h2.0 in
    let h4 = split _ _ h3.0 in
    let h5 = split _ _ h4.0 in
    let h6 = split _ _ h5.0 in
    let h7 = split _ _ h6.0 in
    let h8 = split _ _ h7.0 in
    let h9 = split _ _ h8.0 in
    record {
      year_a = h9.0;
      year_b = h9.1;
      year_c = h8.1;
      year_d = h7.1;
      dash_p = is_eq p b'-' h6.1;
      month_m = h5.1;
      month_n = h4.1;
      dash_q = is_eq q b'-' h3.1;
      day_e = h2.1;
      day_f = h1.1;
    }
  where
    is_eq : (x y : ℕ) → eqb x y ≡ true → x ≡ y
    is_eq x y h = ground arith

read_form :
    (a b c d p m n q e f : ℕ)
    → HasForm a b c d p m n q e f
    → isoformat (date (number_of a b * 100 + number_of c d) (number_of m n) (number_of e f))
      ≡ a ∷ b ∷ c ∷ d ∷ p ∷ m ∷ n ∷ q ∷ e ∷ f ∷ []
unfolding isoformat
read_form a b c d p m n q e f h =
    let y = year_read a b c d h.year_a h.year_b h.year_c h.year_d in
    let mo = two_read m n h.month_m h.month_n in
    let da = two_read e f h.day_e h.day_f in
    simp (y.0, y.1, y.2, y.3, mo.0, mo.1, da.0, da.1, h.dash_p, h.dash_q) refl

read_ten :
    (a b c d p m n q e f : ℕ) (t : Date)
    → date_fromisoformat (a ∷ b ∷ c ∷ d ∷ p ∷ m ∷ n ∷ q ∷ e ∷ f ∷ []) ≡ ok t
    → IsDate t × (isoformat t ≡ a ∷ b ∷ c ∷ d ∷ p ∷ m ∷ n ∷ q ∷ e ∷ f ∷ [])
unfolding date_fromisoformat
read_ten a b c d p m n q e f t h =
    let (form, valid, same) = tested _ _ _ _ t h in
    simp same (valid, read_form a b c d p m n q e f (form-HasForm a b c d p m n q e f form))

-- A text that is read as a day is the ISO format of that day, which is a valid one.
pub isoformat-date_fromisoformat :
    (s : Text) (t : Date) → date_fromisoformat s ≡ ok t → IsDate t × (isoformat t ≡ s)
unfolding date_fromisoformat
isoformat-date_fromisoformat [] t h = cc
isoformat-date_fromisoformat (a ∷ []) t h = cc
isoformat-date_fromisoformat (a ∷ b ∷ []) t h = cc
isoformat-date_fromisoformat (a ∷ b ∷ c ∷ []) t h = cc
isoformat-date_fromisoformat (a ∷ b ∷ c ∷ d ∷ []) t h = cc
isoformat-date_fromisoformat (a ∷ b ∷ c ∷ d ∷ p ∷ []) t h = cc
isoformat-date_fromisoformat (a ∷ b ∷ c ∷ d ∷ p ∷ m ∷ []) t h = cc
isoformat-date_fromisoformat (a ∷ b ∷ c ∷ d ∷ p ∷ m ∷ n ∷ []) t h = cc
isoformat-date_fromisoformat (a ∷ b ∷ c ∷ d ∷ p ∷ m ∷ n ∷ q ∷ []) t h = cc
isoformat-date_fromisoformat (a ∷ b ∷ c ∷ d ∷ p ∷ m ∷ n ∷ q ∷ e ∷ []) t h = cc
isoformat-date_fromisoformat (a ∷ b ∷ c ∷ d ∷ p ∷ m ∷ n ∷ q ∷ e ∷ f ∷ []) t h =
    read_ten a b c d p m n q e f t h
isoformat-date_fromisoformat (a ∷ b ∷ c ∷ d ∷ p ∷ m ∷ n ∷ q ∷ e ∷ f ∷ g ∷ s) t h = cc

tested_error :
    (form : Bool) (y m d : ℕ) (x : Error)
    → (if form then checked_date y m d else raise value_error) ≡ raise x
    → x ≡ value_error
tested_error form y m d x h = ground arith

raised : (x : Error) → ◌≡◌ {A = Result Date} (raise value_error) (raise x) → x ≡ value_error
raised x h = cc

-- What is read as no day is a `ValueError`.
pub date_fromisoformat_error :
    (s : Text) (x : Error) → date_fromisoformat s ≡ raise x → x ≡ value_error
unfolding date_fromisoformat
date_fromisoformat_error [] x h = raised x h
date_fromisoformat_error (a ∷ []) x h = raised x h
date_fromisoformat_error (a ∷ b ∷ []) x h = raised x h
date_fromisoformat_error (a ∷ b ∷ c ∷ []) x h = raised x h
date_fromisoformat_error (a ∷ b ∷ c ∷ d ∷ []) x h = raised x h
date_fromisoformat_error (a ∷ b ∷ c ∷ d ∷ p ∷ []) x h = raised x h
date_fromisoformat_error (a ∷ b ∷ c ∷ d ∷ p ∷ m ∷ []) x h = raised x h
date_fromisoformat_error (a ∷ b ∷ c ∷ d ∷ p ∷ m ∷ n ∷ []) x h = raised x h
date_fromisoformat_error (a ∷ b ∷ c ∷ d ∷ p ∷ m ∷ n ∷ q ∷ []) x h = raised x h
date_fromisoformat_error (a ∷ b ∷ c ∷ d ∷ p ∷ m ∷ n ∷ q ∷ e ∷ []) x h = raised x h
date_fromisoformat_error (a ∷ b ∷ c ∷ d ∷ p ∷ m ∷ n ∷ q ∷ e ∷ f ∷ []) x h = tested_error _ _ _ _ x h
date_fromisoformat_error (a ∷ b ∷ c ∷ d ∷ p ∷ m ∷ n ∷ q ∷ e ∷ f ∷ g ∷ s) x h = raised x h
