-- ===== src/Prelude/Rewrites.antt =====
-- Tables in which the rows of one key are changed, with their keys and owners kept.
use Prim.Native.Nat.{ℕ}
use mathlib.Core.Path.{◌≡◌, refl}
use mathlib.Core.Logic.{◌≢◌, inl, inr}
use mathlib.Core.Bool.{Bool, false, ◌&&◌}
use mathlib.Core.List.{List, [], ◌∷◌, map}
use native.Mathlib.Omega.{arith}
use celine_grid.Prelude.Tests.{eqb, if◌then◌else◌, Bool-cases}
use celine_grid.Prelude.Equality.{Text, ◌==◌, text_eq}
use celine_grid.Prelude.Lists.{any}
use celine_grid.Prelude.Tables.{has, owned, UniqueKeys, AllOf}

module _ {ℓ} {A : Type ℓ} (key : A → ℕ) (owner : A → Text) where
  -- There is a row of this key and owner.
  abbrev pub has_row : ℕ → Text → List A → Bool
  has_row k u = any (λ x. eqb (key x) k && owner x == u)

  -- A change of a row that keeps its key and owner.
  abbrev pub Keeps : (A → A) → Type ℓ
  Keeps f = (x : A) → (key (f x) ≡ key x) × (owner (f x) ≡ owner x)

  module _ (k : ℕ) (f : A → A) (keeps : Keeps f) where
    abbrev pub changed : A → A
    changed x = if eqb (key x) k then f x else x

    changed-keys : (x : A) → (key (changed x) ≡ key x) × (owner (changed x) ≡ owner x)
    changed-keys x = elim (Bool-cases (eqb (key x) k)) [
      | inl same ↦ rw same (keeps x)
      | inr other ↦ rw other (refl, refl)
    ]

    pub has-changed : (j : ℕ) (xs : List A) → has key owner j (map changed xs) ≡ has key owner j xs
    has-changed j [] = refl
    has-changed j (x ∷ xs) = rw ((changed-keys x).0, has-changed j xs) refl

    pub has_row-changed :
        (j : ℕ) (u : Text) (xs : List A) → has_row j u (map changed xs) ≡ has_row j u xs
    has_row-changed j u [] = refl
    has_row-changed j u (x ∷ xs) =
        rw ((changed-keys x).0, (changed-keys x).1, has_row-changed j u xs) refl

    pub UniqueKeys-changed :
        (xs : List A) → UniqueKeys key owner xs → UniqueKeys key owner (map changed xs)
    UniqueKeys-changed [] u = tt
    UniqueKeys-changed (x ∷ xs) u =
        (rw ((changed-keys x).0, has-changed (key x) xs) u.0, UniqueKeys-changed xs u.1)

    pub owned_none-changed :
        (v : Text) (xs : List A)
        → owned key owner v xs ≡ []
        → owned key owner v (map changed xs) ≡ []
    owned_none-changed v [] e = refl
    owned_none-changed v (x ∷ xs) e = elim (Bool-cases (owner x == v)) [
      | inl same ↦ ground arith
      | inr other ↦ rw ((changed-keys x).1, other) (owned_none-changed v xs (ground arith))
    ]

    pub AllOf-changed :
        (j : ℕ) (u : Text) (xs : List A)
        → AllOf key owner j u xs
        → AllOf key owner j u (map changed xs)
    AllOf-changed j u [] h = tt
    AllOf-changed j u (x ∷ xs) h =
        (rw ((changed-keys x).0, (changed-keys x).1) h.0, AllOf-changed j u xs h.1)

    not_of : (u v : Text) (x : A) → u ≢ v → owner x ≡ u → (owner x == v) ≡ false
    not_of u v x ne e = ground arith

    -- The rows of the key are those of `u`: any other owner sees no change.
    pub owned-changed :
        (u v : Text) (xs : List A)
        → u ≢ v
        → AllOf key owner k u xs
        → owned key owner v (map changed xs) ≡ owned key owner v xs
    owned-changed u v [] ne h = refl
    owned-changed u v (x ∷ xs) ne h = elim (Bool-cases (eqb (key x) k)) [
      | inl same ↦ rw ((changed-keys x).1, not_of u v x ne (h.0 same)) (owned-changed u v xs ne h.1)
      | inr other ↦ rw (other, owned-changed u v xs ne h.1) refl
    ]
