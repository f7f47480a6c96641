-- ===== src/Prelude/Sort.antt =====
-- Python's stable `sorted`, which compares by `<` alone, and the order of `str`.

use mathlib.Core.Path.{◌≡◌, refl, ◌∙◌}
use mathlib.Core.Bool.{Bool, true, false}
use mathlib.Core.List.{List, [], ◌∷◌, Perm, Permᴰ}
use mathlib.Core.List.Perm
use mathlib.Core.Logic.{∥∥₁_elim, ◌⊎◌, inl, inr, Lift}
use native.Mathlib.Omega.{arith}
use celine_grid.Prelude.Tests.{ltb, eqb, if◌then◌else◌, Bool-cases}
use celine_grid.Prelude.Equality.{Text}
use celine_grid.Prelude.Lists.{All}

module _ {ℓ} {A : Type ℓ} (lt : A → A → Bool) where
  -- The new element goes before those that are not smaller: equal ones keep their order.
  unfoldable pub insert_sorted : A → List A → List A
  insert_sorted x [] = x ∷ []
  insert_sorted x (y ∷ ys) =
      let rest = insert_sorted x ys in if lt y x then y ∷ rest else x ∷ y ∷ ys

  unfoldable pub sorted : List A → List A
  unfolding insert_sorted
  sorted [] = []
  sorted (x ∷ xs) = insert_sorted x (sorted xs)

  -- No later element is smaller.
  abbrev pub IsSorted : List A → Type 0
  IsSorted [] = Unit
  IsSorted (x ∷ xs) = All (λ y. lt y x ≡ false) xs × IsSorted xs

  pub insert_sorted-perm : (x : A) (xs : List A) → Perm (insert_sorted x xs) (x ∷ xs)
  unfolding insert_sorted
  insert_sorted-perm x [] = Perm.refl (x ∷ [])
  insert_sorted-perm x (y ∷ ys) = elim (Bool-cases (lt y x)) [
    | inl smaller ↦
        rw smaller (Perm.trans (Perm.cons y (insert_sorted-perm x ys)) (Perm.swap x y ys))
    | inr other ↦ rw other (Perm.refl (x ∷ y ∷ ys))
  ]

  pub sorted-perm : (xs : List A) → Perm (sorted xs) xs
  unfolding sorted
  sorted-perm [] = Perm.refl []
  sorted-perm (x ∷ xs) =
      Perm.trans (insert_sorted-perm x (sorted xs)) (Perm.cons x (sorted-perm xs))

-- `<` of a type whose values can be sorted.
pub record IsStrictOrder {ℓ} {A : Type ℓ} (lt : A → A → Bool) : Type ℓ where
  pub asym : (a b : A) → lt a b ≡ true → lt b a ≡ false
  pub neg_trans : (a b c : A) → lt b a ≡ false → lt c b ≡ false → lt c a ≡ false

-- The same laws, of the values that `P` holds of.
pub record IsStrictOrderOn {ℓ κ} {A : Type ℓ} (P : A → Type κ) (lt : A → A → Bool)
    : Type (ℓ ⊔ κ) where
  pub asym_on : (a b : A) → P a → P b → lt a b ≡ true → lt b a ≡ false
  pub neg_trans_on :
      (a b c : A) → P a → P b → P c → lt b a ≡ false → lt c b ≡ false → lt c a ≡ false

module _ {ℓ κ} {A : Type ℓ} (lt : A → A → Bool) (P : A → Type κ) where
  All-insert_sorted : (x : A) (ys : List A) → P x → All P ys → All P (insert_sorted lt x ys)
  unfolding insert_sorted
  All-insert_sorted x [] h all = (h, tt)
  All-insert_sorted x (y ∷ ys) h all = elim (Bool-cases (lt y x)) [
    | inl smaller ↦ rw smaller (all.0, All-insert_sorted x ys h all.1)
    | inr other ↦ rw other (h, all)
  ]

  pub All-sorted : (xs : List A) → All P xs → All P (sorted lt xs)
  unfolding sorted
  All-sorted [] all = tt
  All-sorted (x ∷ xs) all = All-insert_sorted x (sorted lt xs) all.0 (All-sorted xs all.1)

  All-inserted : (x : A) (ys : List A) → All P (insert_sorted lt x ys) → P x × All P ys
  unfolding insert_sorted
  All-inserted x [] all = (all.0, tt)
  All-inserted x (y ∷ ys) all = go (All-inserted x ys) (lt y x) all
    where
      go :
          (All P (insert_sorted lt x ys) → P x × All P ys)
          → (smaller : Bool) → All P (if smaller then y ∷ insert_sorted lt x ys else x ∷ y ∷ ys)
          → P x × All P (y ∷ ys)
      go found true h = let rest = found h.1 in (rest.0, (h.0, rest.1))
      go found false h = h

  pub All-of_sorted : (xs : List A) → All P (sorted lt xs) → All P xs
  unfolding sorted
  All-of_sorted [] all = tt
  All-of_sorted (x ∷ xs) all =
      let found = All-inserted x (sorted lt xs) all in (found.0, All-of_sorted xs found.1)

-- `x` is one of the elements.
abbrev pub In {ℓ} : {A : Type ℓ} → A → List A → Type ℓ
In x [] = Lift ⊥
In x (y ∷ ys) = (x ≡ y) ⊎ In x ys

module _ {ℓ} {A : Type ℓ} (lt : A → A → Bool) where
  In-inserted :
      (x y : A) (ys : List A) (smaller : Bool)
      → (In x (insert_sorted lt y ys) → (x ≡ y) ⊎ In x ys)
      → (z : A) → In x (if smaller then z ∷ insert_sorted lt y ys else y ∷ z ∷ ys)
      → (x ≡ y) ⊎ ((x ≡ z) ⊎ In x ys)
  In-inserted x y ys true found z (inl e) = inr (inl e)
  In-inserted x y ys true found z (inr m) = elim (found m) [
    | inl e ↦ inl e
    | inr old ↦ inr (inr old)
  ]
  In-inserted x y ys false found z m = m

  In-insert_sorted : (x y : A) (ys : List A) → In x (insert_sorted lt y ys) → (x ≡ y) ⊎ In x ys
  unfolding insert_sorted
  In-insert_sorted x y [] m = m
  In-insert_sorted x y (z ∷ ys) m = In-inserted x y ys (lt z y) (In-insert_sorted x y ys) z m

  pub In-sorted : (x : A) (xs : List A) → In x (sorted lt xs) → In x xs
  unfolding sorted
  In-sorted x [] m = m
  In-sorted x (y ∷ xs) m = elim (In-insert_sorted x y (sorted lt xs) m) [
    | inl e ↦ inl e
    | inr old ↦ inr (In-sorted x xs old)
  ]

module _ {ℓ κ} {A : Type ℓ} (lt : A → A → Bool) (P : A → Type κ) (o : IsStrictOrderOn P lt) where
  All-weaken :
      (x y : A) (zs : List A)
      → P x
      → P y
      → All P zs
      → lt y x ≡ false
      → All (λ z. lt z y ≡ false) zs
      → All (λ z. lt z x ≡ false) zs
  All-weaken x y [] p q ps h all = tt
  All-weaken x y (z ∷ zs) p q ps h all =
      (o.neg_trans_on x y z p q ps.0 h all.0, All-weaken x y zs p q ps.1 h all.1)

  insert_sorted-IsSorted :
      (x : A) (ys : List A) → P x → All P ys → IsSorted lt ys → IsSorted lt (insert_sorted lt x ys)
  unfolding insert_sorted
  insert_sorted-IsSorted x [] p ps s = (tt, tt)
  insert_sorted-IsSorted x (y ∷ ys) p ps s = elim (Bool-cases (lt y x)) [
    | inl smaller ↦ rw smaller (
      All-insert_sorted lt (λ z. lt z y ≡ false) x ys (o.asym_on y x ps.0 p smaller) s.0,
      insert_sorted-IsSorted x ys p ps.1 s.1,
    )
    | inr other ↦ rw other ((other, All-weaken x y ys p ps.0 ps.1 other s.0), s)
  ]

  pub sorted-IsSorted_on : (xs : List A) → All P xs → IsSorted lt (sorted lt xs)
  unfolding sorted
  sorted-IsSorted_on [] ps = tt
  sorted-IsSorted_on (x ∷ xs) ps =
      insert_sorted-IsSorted x (sorted lt xs) ps.0 (All-sorted lt P xs ps.1)
        (sorted-IsSorted_on xs ps.1)

-- The order of `str`: by code points, a prefix first.
unfoldable pub text_lt : Text → Text → Bool
text_lt s [] = false
text_lt [] (d ∷ t) = true
text_lt (c ∷ s) (d ∷ t) =
    let rest = text_lt s t in if ltb c d then true else if eqb c d then rest else false

text_lt-asym : (s t : Text) → text_lt s t ≡ true → text_lt t s ≡ false
unfolding text_lt
text_lt-asym [] [] h = refl
text_lt-asym [] (d ∷ t) h = refl
text_lt-asym (c ∷ s) [] h = cc
text_lt-asym (c ∷ s) (d ∷ t) h = ground (arith, text_lt-asym s t)

text_lt-neg_trans : (a b c : Text) → text_lt b a ≡ false → text_lt c b ≡ false → text_lt c a ≡ false
unfolding text_lt
text_lt-neg_trans [] b c h k = refl
text_lt-neg_trans (x ∷ a) [] c h k = cc
text_lt-neg_trans (x ∷ a) (y ∷ b) [] h k = cc
text_lt-neg_trans (x ∷ a) (y ∷ b) (z ∷ c) h k = ground (arith, text_lt-neg_trans a b c)

pub text_lt-IsStrictOrder : IsStrictOrder text_lt
text_lt-IsStrictOrder = record { asym = text_lt-asym; neg_trans = text_lt-neg_trans }

text_lt-antisym : (s t : Text) → text_lt s t ≡ false → text_lt t s ≡ false → s ≡ t
unfolding text_lt
text_lt-antisym [] [] h k = refl
text_lt-antisym [] (d ∷ t) h k = cc
text_lt-antisym (c ∷ s) [] h k = cc
text_lt-antisym (c ∷ s) (d ∷ t) h k = ground (arith, text_lt-antisym s t)

insert_sorted_comm :
    (x y : Text) (zs : List Text)
    → insert_sorted text_lt x (insert_sorted text_lt y zs)
      ≡ insert_sorted text_lt y (insert_sorted text_lt x zs)
unfolding insert_sorted
insert_sorted_comm x y [] = ground (arith, text_lt-asym x y, text_lt-asym y x, text_lt-antisym x y)
insert_sorted_comm x y (z ∷ zs) = ground (
  arith,
  insert_sorted_comm x y zs,
  text_lt-asym x y,
  text_lt-asym y x,
  text_lt-antisym x y,
  text_lt-neg_trans x y z,
  text_lt-neg_trans y x z,
  text_lt-neg_trans z x y,
  text_lt-neg_trans z y x,
)

-- Sorting texts forgets the order in which they come.
sorted-eq_of_permᴰ : {xs ys : List Text} → Permᴰ xs ys → sorted text_lt xs ≡ sorted text_lt ys
unfolding sorted
sorted-eq_of_permᴰ Permᴰ.nil = refl
sorted-eq_of_permᴰ (Permᴰ.cons e p) = rw (e, sorted-eq_of_permᴰ p)
sorted-eq_of_permᴰ (Permᴰ.swap {l = zs} e f) =
    rw (e, f) (insert_sorted_comm _ _ (sorted text_lt zs))
sorted-eq_of_permᴰ (Permᴰ.trans p q) = sorted-eq_of_permᴰ p ∙ sorted-eq_of_permᴰ q

pub sorted-eq_of_perm : {xs ys : List Text} → Perm xs ys → sorted text_lt xs ≡ sorted text_lt ys
sorted-eq_of_perm p = ∥∥₁_elim p (hlevel) sorted-eq_of_permᴰ
