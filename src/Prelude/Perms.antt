-- ===== src/Prelude/Perms.antt =====
-- What a rearrangement of a list keeps: membership, distinctness, sums of numbers.
use mathlib.Core.Path.{◌≡◌, refl, ◌∙◌, subst}
use mathlib.Core.Logic.{∥∥₁_elim}
use mathlib.Core.Bool.{false}
use mathlib.Core.List.{List, [], ◌∷◌, map, Perm, Permᴰ}
use mathlib.Core.HLevel.{×_prop}
use native.Mathlib.Nat.{ℕ_set}
use native.Mathlib.Omega.{arith}
use Prim.Native.Nat.{ℕ, ◌+◌}
use celine_grid.Prelude.Equality.{Text, text_eq, contains}
use celine_grid.Prelude.Lists.{All}

-- No text twice.
abbrev pub Distinct : List Text → Type 0
Distinct [] = Unit
Distinct (x ∷ xs) = (contains xs x ≡ false) × Distinct xs

Distinct-prop : (xs : List Text) → IsProp (Distinct xs)
Distinct-prop [] = hlevel
Distinct-prop (x ∷ xs) = ×_prop (hlevel) (Distinct-prop xs)

abbrev pub sum_by {ℓ} : {A : Type ℓ} → (A → ℕ) → List A → ℕ
sum_by f [] = 0
sum_by f (x ∷ xs) = f x + sum_by f xs

module _ {ℓ} {A : Type ℓ} where
  sum_by_permᴰ : (f : A → ℕ) {xs ys : List A} → Permᴰ xs ys → sum_by f xs ≡ sum_by f ys
  sum_by_permᴰ f Permᴰ.nil = refl
  sum_by_permᴰ f (Permᴰ.cons e p) = rw (e, sum_by_permᴰ f p)
  sum_by_permᴰ f (Permᴰ.swap e g) = rw (e, g) (omega arith)
  sum_by_permᴰ f (Permᴰ.trans p q) = sum_by_permᴰ f p ∙ sum_by_permᴰ f q

  pub sum_by_perm : (f : A → ℕ) {xs ys : List A} → Perm xs ys → sum_by f xs ≡ sum_by f ys
  sum_by_perm f p = ∥∥₁_elim p (ℕ_set _ _) (sum_by_permᴰ f)

  -- Membership of a key.
  contains_permᴰ :
      (f : A → Text) {xs ys : List A} (k : Text)
      → Permᴰ xs ys
      → contains (map f xs) k ≡ contains (map f ys) k
  contains_permᴰ f k Permᴰ.nil = refl
  contains_permᴰ f k (Permᴰ.cons e p) = rw (e, contains_permᴰ f k p)
  contains_permᴰ f k (Permᴰ.swap e g) = rw (e, g) (ground arith)
  contains_permᴰ f k (Permᴰ.trans p q) = contains_permᴰ f k p ∙ contains_permᴰ f k q

  Distinct_permᴰ :
      (f : A → Text) {xs ys : List A} → Permᴰ xs ys → Distinct (map f xs) → Distinct (map f ys)
  Distinct_permᴰ f Permᴰ.nil d = d
  Distinct_permᴰ f (Permᴰ.cons {a = x} e p) d =
      rw (← e, ← contains_permᴰ f (f x) p) (d.0, Distinct_permᴰ f p d.1)
  Distinct_permᴰ f (Permᴰ.swap e g) d = rw (← e, ← g) (ground arith)
  Distinct_permᴰ f (Permᴰ.trans p q) d = Distinct_permᴰ f q (Distinct_permᴰ f p d)

  All-permᴰ {κ} : (P : A → Type κ) {xs ys : List A} → Permᴰ xs ys → All P xs → All P ys
  All-permᴰ P Permᴰ.nil h = h
  All-permᴰ P (Permᴰ.cons e p) h = (subst P e h.0, All-permᴰ P p h.1)
  All-permᴰ P (Permᴰ.swap e g) h = (subst P g h.1.0, (subst P e h.0, h.1.1))
  All-permᴰ P (Permᴰ.trans p q) h = All-permᴰ P q (All-permᴰ P p h)

  pub Distinct_perm :
      (f : A → Text) {xs ys : List A} → Perm xs ys → Distinct (map f xs) → Distinct (map f ys)
  Distinct_perm f {ys} p d = ∥∥₁_elim p (Distinct-prop (map f ys)) (λ q. Distinct_permᴰ f q d)
