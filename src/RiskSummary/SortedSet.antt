-- ===== src/RiskSummary/SortedSet.antt =====
-- `sorted` of a set: each element once.
use celine_grid.Prelude.{
  ◌==◌, Text, text_eq, contains, false, ◌||◌, List, [], ◌∷◌, ◌≡◌, refl, ◌∙◌, arith, insert_sorted,
  sorted, text_lt, Bool-cases, inl, inr,
}
use celine_grid.Prelude.Perms.{Distinct}
use celine_grid.RiskSummary.{distinct, sorted_set}

contains-insert_sorted :
    (x : Text) (ys : List Text) (k : Text)
    → contains (insert_sorted text_lt x ys) k ≡ (k == x || contains ys k)
unfolding insert_sorted
contains-insert_sorted x [] k = refl
contains-insert_sorted x (y ∷ ys) k = ground (arith, contains-insert_sorted x ys k)

contains-sorted : (xs : List Text) (k : Text) → contains (sorted text_lt xs) k ≡ contains xs k
unfolding sorted
contains-sorted [] k = refl
contains-sorted (x ∷ xs) k =
    contains-insert_sorted x (sorted text_lt xs) k ∙ ground (arith, contains-sorted xs k)

contains-distinct : (xs : List Text) (k : Text) → contains (distinct xs) k ≡ contains xs k
unfolding distinct
contains-distinct [] k = refl
contains-distinct (x ∷ xs) k = ground (arith, contains-distinct xs k, contains-distinct xs x)

pub contains-sorted_set : (xs : List Text) (k : Text) → contains (sorted_set xs) k ≡ contains xs k
unfolding sorted_set
contains-sorted_set xs k = contains-sorted (distinct xs) k ∙ contains-distinct xs k

Distinct-insert_sorted :
    (x : Text) (ys : List Text)
    → contains ys x ≡ false
    → Distinct ys
    → Distinct (insert_sorted text_lt x ys)
unfolding insert_sorted
Distinct-insert_sorted x [] h d = (refl, tt)
Distinct-insert_sorted x (y ∷ ys) h d = elim (Bool-cases (text_lt y x)) [
  | inl smaller ↦ rw smaller (
    ground (arith, contains-insert_sorted x ys y, d.0),
    Distinct-insert_sorted x ys (ground arith) d.1,
  )
  | inr other ↦ rw other (h, d)
]

Distinct-sorted : (xs : List Text) → Distinct xs → Distinct (sorted text_lt xs)
unfolding sorted
Distinct-sorted [] d = tt
Distinct-sorted (x ∷ xs) d =
    Distinct-insert_sorted x (sorted text_lt xs) (contains-sorted xs x ∙ d.0)
      (Distinct-sorted xs d.1)

Distinct-distinct : (xs : List Text) → Distinct (distinct xs)
unfolding distinct
Distinct-distinct [] = tt
Distinct-distinct (x ∷ xs) = elim (Bool-cases (contains (distinct xs) x)) [
  | inl there ↦ rw there (Distinct-distinct xs)
  | inr new ↦ rw new (new, Distinct-distinct xs)
]

pub Distinct-sorted_set : (xs : List Text) → Distinct (sorted_set xs)
unfolding sorted_set
Distinct-sorted_set xs = Distinct-sorted (distinct xs) (Distinct-distinct xs)
