-- ===== src/Tests/Data.antt =====
-- Parameters and data of the tests: whole numbers for floats, and lowercasing of ASCII.
use celine_grid.Prelude.{
  some, ℕ, ◌+◌, ◌-◌, ◌*◌, ◌/◌, Text, text, Bool, true, false, not, ◌&&◌, ◌||◌, none, List, [], ◌∷◌,
  map, if◌then◌else◌, ltb, leb, ◌≡◌, refl, arith, String,
}
use celine_grid.Prelude.Int.{pos, negsuc}
use celine_grid.Values.{Floats, Value, Row, number, string}
use celine_grid.Values.Order.{IsNumber, IsOrdered}
use celine_grid.RiskSummary.Order.{IsNegation}

-- `negative n` is -(n + 1).
pub data Whole : Type 0 where
  natural : ℕ → Whole
  negative : ℕ → Whole

abbrev pub pos_part : Whole → ℕ
pos_part (natural n) = n
pos_part (negative n) = 0

abbrev pub neg_part : Whole → ℕ
neg_part (natural n) = 0
neg_part (negative n) = n + 1

abbrev pub whole : ℕ → ℕ → Whole
whole a b = if leb b a then natural (a - b) else negative (b - a - 1)

abbrev pub whole_lt : Whole → Whole → Bool
whole_lt a b = ltb (pos_part a + neg_part b) (pos_part b + neg_part a)

abbrev pub whole_eq : Whole → Whole → Bool
whole_eq a b = not (whole_lt a b) && not (whole_lt b a)

abbrev pub whole_add : Whole → Whole → Whole
whole_add a b = whole (pos_part a + pos_part b) (neg_part a + neg_part b)

abbrev pub whole_sum : List Whole → Whole
whole_sum [] = natural 0
whole_sum (x ∷ xs) = whole_add x (whole_sum xs)

-- Whole numbers, for integers up to a thousand; a half counts as 0, and products and quotients are those of positive numbers.
abbrev pub wholes : Floats
wholes = record {
  F = Whole;
  zero = natural 0;
  one = natural 1;
  half = natural 0;
  hundred = natural 100;
  add = whole_add;
  mul = λ a b. natural (pos_part a * pos_part b);
  div = λ a b. natural (pos_part a / pos_part b);
  neg = λ a. whole (neg_part a) (pos_part a);
  sum = whole_sum;
  round = λ x n. x;
  lt = whole_lt;
  eq = whole_eq;
  nonzero = λ a. not (whole_eq a (natural 0));
  parse = λ s. none;
  of_int = λ i. elim i [
    | pos n ↦ if leb n 1000 then some (natural n) else none
    | negsuc n ↦ if ltb n 1000 then some (negative n) else none
  ];
}

whole_lt-asym : (a b : Whole) → whole_lt a b ≡ true → whole_lt b a ≡ false
whole_lt-asym a b h = ground arith

whole_lt-neg_trans :
    (a b c : Whole) → whole_lt b a ≡ false → whole_lt c b ≡ false → whole_lt c a ≡ false
whole_lt-neg_trans a b c h k = ground arith

pub whole-IsNumber : (a : Whole) → IsNumber wholes a
whole-IsNumber a = ground arith

pub wholes-IsOrdered : IsOrdered wholes
wholes-IsOrdered = record {
  order = record {
    asym_on = λ a b p q. whole_lt-asym a b;
    neg_trans_on = λ a b c p q r. whole_lt-neg_trans a b c;
  };
  eq_lem = λ x y p q. refl;
}

pub wholes-IsNegation : IsNegation wholes
wholes-IsNegation = record { lt_neg = λ x y. ground arith; eq_neg = λ x y. ground arith }

pub whole_add-pos :
    (x y : Whole)
    → whole_lt (natural 0) x ≡ true
    → (whole_lt (natural 0) y || whole_eq y (natural 0)) ≡ true
    → whole_lt (natural 0) (whole_add x y) ≡ true
whole_add-pos x y h k = ground arith

abbrev pub no_repr : Value Whole → Text
no_repr _ = []

abbrev pub ascii_lower : Text → Text
ascii_lower = map λ c. if leb b'A' c && leb c b'Z' then c + 32 else c

abbrev pub row : String → String → String → String → ℕ → ℕ → ℕ → Row Whole
row date vector unit line total alert warning =
    (text "date", string (text date))
    ∷ (text "risk_vector", string (text vector))
    ∷ (text "operational_unit", string (text unit))
    ∷ (text "line_name", string (text line))
    ∷ (text "worst_level", string (text "WARNING"))
    ∷ (text "km_total", number (natural total))
    ∷ (text "km_alert", number (natural alert))
    ∷ (text "km_warning", number (natural warning))
    ∷ []

abbrev pub rows : List (Row Whole)
rows =
    row "2026-08-15" "wind" "North" "L1" 10 4 1
    ∷ row "2026-08-15" "wind" "South" "L2" 5 0 5
    ∷ row "2026-08-15" "heat" "South" "L2" 5 0 2
    ∷ row "2026-08-16" "wind" "North" "L3" 8 0 0
    ∷ []
