-- ===== src/Prelude/Pointwise.antt =====
-- Lists through functions and tests that agree at every element.
use mathlib.Core.Path.{ap₂}
use celine_grid.Prelude.{Bool, List, [], ◌∷◌, ◌≡◌, refl, ap, Bool-cases, inl, inr, keep, map}

pub keep_ext {ℓ} :
    {A : Type ℓ} (p q : A → Bool) (xs : List A) → ((x : A) → p x ≡ q x) → keep p xs ≡ keep q xs
keep_ext p q [] h = refl
keep_ext p q (x ∷ xs) h = elim (Bool-cases (q x)) [
  | inl yes_ ↦ rw (h x, yes_) (ap (◌∷◌ x) (keep_ext p q xs h))
  | inr no_ ↦ rw (h x, no_) (keep_ext p q xs h)
]

pub map_ext {ℓ κ} :
    {A : Type ℓ} {B : Type κ} (f g : A → B) (xs : List A)
    → ((x : A) → f x ≡ g x)
    → map f xs ≡ map g xs
map_ext f g [] h = refl
map_ext f g (x ∷ xs) h = ap₂ ◌∷◌ (h x) (map_ext f g xs h)
