-- ===== src/Prelude/Tables.antt =====
-- Lists of rows with a key, of which each belongs to an owner.
use Prim.Native.Nat.{ℕ}
use mathlib.Core.Path.{◌≡◌, refl, ap}
use mathlib.Core.Logic.{◌≢◌, ◌⊎◌, inl, inr}
use mathlib.Core.Bool.{Bool, true, false, not, ◌&&◌, ◌||◌}
use mathlib.Core.List.{List, [], ◌∷◌, ◌++◌, map}
use native.Mathlib.Omega.{arith}
use celine_grid.Prelude.Tests.{eqb, if◌then◌else◌, Bool-cases}
use celine_grid.Prelude.Equality.{Text, ◌==◌, text_eq}
use celine_grid.Prelude.Lists.{keep, any, All}

module _ {ℓ} {A : Type ℓ} (key : A → ℕ) (owner : A → Text) where
  abbrev pub has : ℕ → List A → Bool
  has k = any (λ x. eqb (key x) k)

  abbrev pub replace : ℕ → A → List A → List A
  replace k new = map (λ x. if eqb (key x) k then new else x)

  abbrev pub owned : Text → List A → List A
  owned u = keep (λ x. owner x == u)

  abbrev pub UniqueKeys : List A → Type 0
  UniqueKeys [] = Unit
  UniqueKeys (x ∷ xs) = (has (key x) xs ≡ false) × UniqueKeys xs

  has-append : (k : ℕ) (xs : List A) (y : A) → has k (xs ++ (y ∷ [])) ≡ (has k xs || eqb (key y) k)
  has-append k [] y = ground arith
  has-append k (x ∷ xs) y = ground (arith, has-append k xs y)

  pub UniqueKeys-append :
      (xs : List A) (y : A) → has (key y) xs ≡ false → UniqueKeys xs → UniqueKeys (xs ++ (y ∷ []))
  UniqueKeys-append [] y h u = (refl, tt)
  UniqueKeys-append (x ∷ xs) y h u =
      (ground (arith, has-append (key x) xs y, u.0), UniqueKeys-append xs y (ground arith) u.1)

  has-replace :
      (j k : ℕ) (new : A) (xs : List A) → key new ≡ k → has j (replace k new xs) ≡ has j xs
  has-replace j k new [] e = refl
  has-replace j k new (x ∷ xs) e = ground (arith, has-replace j k new xs e)

  pub UniqueKeys-replace :
      (k : ℕ) (new : A) (xs : List A) → key new ≡ k → UniqueKeys xs → UniqueKeys (replace k new xs)
  UniqueKeys-replace k new [] e u = tt
  UniqueKeys-replace k new (x ∷ xs) e u = (head, UniqueKeys-replace k new xs e u.1)
    where
      head : has (key (if eqb (key x) k then new else x)) (replace k new xs) ≡ false
      head = ground (arith, has-replace (key x) k new xs e, has-replace (key new) k new xs e, u.0)

  has-keep : (j : ℕ) (p : A → Bool) (xs : List A) → has j xs ≡ false → has j (keep p xs) ≡ false
  has-keep j p [] h = refl
  has-keep j p (x ∷ xs) h = ground (arith, has-keep j p xs)

  pub UniqueKeys-keep : (p : A → Bool) (xs : List A) → UniqueKeys xs → UniqueKeys (keep p xs)
  UniqueKeys-keep p [] u = tt
  UniqueKeys-keep p (x ∷ xs) u = elim (Bool-cases (p x)) [
    | inl yes_ ↦ rw yes_ (has-keep (key x) p xs u.0, UniqueKeys-keep p xs u.1)
    | inr no_ ↦ rw no_ (UniqueKeys-keep p xs u.1)
  ]

  pub keep-first :
      (p : A → Bool) (xs : List A) (y : A) (ys : List A) → keep p xs ≡ y ∷ ys → p y ≡ true
  keep-first p [] y ys e = cc
  keep-first p (x ∷ xs) y ys e = ground (arith, keep-first p xs y ys)

  pub has-first :
      (p : A → Bool) (xs : List A) (y : A) (ys : List A)
      → keep p xs ≡ y ∷ ys
      → has (key y) xs ≡ true
  has-first p [] y ys e = cc
  has-first p (x ∷ xs) y ys e = ground (arith, has-first p xs y ys)

  -- The rows with a key belong to an owner.
  abbrev pub AllOf : ℕ → Text → List A → Type 0
  AllOf k u = All (λ x. eqb (key x) k ≡ true → owner x ≡ u)

  pub AllOf-absent : (k : ℕ) (u : Text) (xs : List A) → has k xs ≡ false → AllOf k u xs
  AllOf-absent k u [] h = tt
  AllOf-absent k u (x ∷ xs) h = (λ e. cc, AllOf-absent k u xs (ground arith))

  -- The rows with the key of `y` are `y`.
  abbrev pub AllAre : A → List A → Type ℓ
  AllAre y = All (λ x. eqb (key x) (key y) ≡ true → x ≡ y)

  AllAre-absent : (y : A) (xs : List A) → has (key y) xs ≡ false → AllAre y xs
  AllAre-absent y [] h = tt
  AllAre-absent y (x ∷ xs) h = (λ e. cc, AllAre-absent y xs (ground arith))

  -- The key of a row that was found is that of no other row.
  pub AllAre-found :
      (p : A → Bool) (xs : List A) (y : A) (ys : List A)
      → UniqueKeys xs
      → keep p xs ≡ y ∷ ys
      → AllAre y xs
  AllAre-found p [] y ys u e = tt
  AllAre-found p (x ∷ xs) y ys u e = elim (Bool-cases (p x)) [
    | inl yes_ ↦
        let same : x ≡ y = ground arith in (λ h. same, AllAre-absent y xs (ground (arith, u.0)))
    | inr no_ ↦
        let rest : keep p xs ≡ y ∷ ys = ground arith in
        (λ h. ground (arith, u.0, has-first p xs y ys rest), AllAre-found p xs y ys u.1 rest)
  ]

  AllAre-AllOf : (y : A) (xs : List A) → AllAre y xs → AllOf (key y) (owner y) xs
  AllAre-AllOf y [] h = tt
  AllAre-AllOf y (x ∷ xs) h = (λ e. ap owner (h.0 e), AllAre-AllOf y xs h.1)

  pub AllOf-found :
      (p : A → Bool) (xs : List A) (y : A) (ys : List A)
      → UniqueKeys xs
      → keep p xs ≡ y ∷ ys
      → AllOf (key y) (owner y) xs
  AllOf-found p xs y ys u e = AllAre-AllOf y xs (AllAre-found p xs y ys u e)

  pub owned-replace :
      (k : ℕ) (new : A) (v : Text) (xs : List A)
      → owner new ≢ v
      → AllOf k (owner new) xs
      → owned v (replace k new xs) ≡ owned v xs
  owned-replace k new v [] ne h = refl
  owned-replace k new v (x ∷ xs) ne h = ground (arith, owned-replace k new v xs ne h.1, h.0)

  pub owned-remove :
      (k : ℕ) (u v : Text) (xs : List A)
      → u ≢ v
      → AllOf k u xs
      → owned v (keep (λ x. not (eqb (key x) k)) xs) ≡ owned v xs
  owned-remove k u v [] ne h = refl
  owned-remove k u v (x ∷ xs) ne h = ground (arith, owned-remove k u v xs ne h.1, h.0)

  pub owned-append :
      (v : Text) (xs : List A) (y : A) → owner y ≢ v → owned v (xs ++ (y ∷ [])) ≡ owned v xs
  owned-append v [] y ne = ground arith
  owned-append v (x ∷ xs) y ne = ground (arith, owned-append v xs y ne)

  pub owned_none-replace :
      (k : ℕ) (new : A) (v : Text) (xs : List A)
      → AllOf k (owner new) xs
      → owned v xs ≡ []
      → owned v (replace k new xs) ≡ []
  owned_none-replace k new v [] h e = refl
  owned_none-replace k new v (x ∷ xs) h e = ground (arith, owned_none-replace k new v xs h.1, h.0)

  -- The only row of an owner that was found by its key is replaced.
  pub owned-replaced :
      (u : Text) (xs : List A) (y new : A)
      → UniqueKeys xs
      → owned u xs ≡ y ∷ []
      → owner new ≡ u
      → owned u (replace (key y) new xs) ≡ new ∷ []
  owned-replaced u [] y new k e o = cc
  owned-replaced u (x ∷ xs) y new k e o = elim (Bool-cases (owner x == u)) [
    | inl yes_ ↦
        let same : x ≡ y = ground arith in
        let none_left : owned u xs ≡ [] = ground arith in
        ground (
          arith,
          ap key same,
          owned_none-replace (key y) new u xs
              (AllOf-absent (key y) (owner new) xs (ground (arith, k.0, ap key same))) none_left,
        )
    | inr no_ ↦
        let rest : owned u xs ≡ y ∷ [] = ground arith in
        ground (
          arith,
          k.0,
          has-first (λ z. owner z == u) xs y [] rest,
          owned-replaced u xs y new k.1 rest o,
        )
  ]

  -- A key and an owner select one row at most.
  abbrev pub own : ℕ → Text → List A → List A
  own k u = keep (λ x. eqb (key x) k && owner x == u)

  own-absent : (k : ℕ) (u : Text) (xs : List A) → has k xs ≡ false → own k u xs ≡ []
  own-absent k u [] h = refl
  own-absent k u (x ∷ xs) h = ground (arith, own-absent k u xs)

  pub own-cases :
      (k : ℕ) (u : Text) (xs : List A)
      → UniqueKeys xs
      → (own k u xs ≡ []) ⊎ ((y : A) × (own k u xs ≡ y ∷ []))
  own-cases k u [] h = inl refl
  own-cases k u (x ∷ xs) h = elim (Bool-cases (eqb (key x) k)) [
    | inl yes_ ↦
        let rest : own k u xs ≡ [] = own-absent k u xs (ground (arith, h.0)) in
        elim (Bool-cases (owner x == u)) [
          | inl mine ↦ inr (x, rw (yes_, mine, rest) refl)
          | inr other ↦ inl (rw (yes_, other, rest) refl)
        ]
    | inr no_ ↦ rw no_ (own-cases k u xs h.1)
  ]

  pub own-remove :
      (k : ℕ) (u : Text) (xs : List A) → own k u (keep (λ x. not (eqb (key x) k)) xs) ≡ []
  own-remove k u [] = refl
  own-remove k u (x ∷ xs) = ground (arith, own-remove k u xs)
