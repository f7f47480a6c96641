-- ===== src/Prelude/Groups.antt =====
-- `groups.setdefault(key(x), []).append(x)` for each x: the groups in the order of their first keys.
use celine_grid.Prelude.Equality.{Text, ◌==◌, text_eq, contains}
use celine_grid.Prelude.Tests.{if◌then◌else◌, Bool-cases}
use celine_grid.Prelude.Lists.{length, keep, length-append, All}
use celine_grid.Prelude.Perms.{Distinct}
use Prim.Native.Nat.{ℕ, ◌+◌}
use mathlib.Core.Path.{◌≡◌, refl, sym, ◌∙◌, subst, fun_ext}
use mathlib.Core.Logic.{◌≢◌, inl, inr}
use mathlib.Core.Bool.{false, ◌||◌}
use mathlib.Core.List.{List, [], ◌∷◌, ◌++◌, map, append-nil, append_assoc}
use native.Mathlib.Omega.{arith}

abbrev pub Groups {ℓ} : Type ℓ → Type ℓ
Groups A = List (Text × List A)

module _ {ℓ} {A : Type ℓ} where
  unfoldable pub add_to : Text → A → Groups A → Groups A
  add_to k a [] = (k, a ∷ []) ∷ []
  add_to k a ((j, members) ∷ gs) =
      if j == k then (j, members ++ (a ∷ [])) ∷ gs else (j, members) ∷ add_to k a gs

  unfoldable pub group_onto : (A → Text) → Groups A → List A → Groups A
  group_onto key gs [] = gs
  group_onto key gs (x ∷ xs) = group_onto key (add_to (key x) x gs) xs

  unfoldable pub group_by : (A → Text) → List A → Groups A
  group_by key = group_onto key []

  abbrev pub group_keys : Groups A → List Text
  group_keys = map (λ (k, _). k)

  -- The members of a group, none if there is no such group.
  abbrev pub get_group : Text → Groups A → List A
  get_group k [] = []
  get_group k ((j, members) ∷ gs) = if j == k then members else get_group k gs

  abbrev pub group_sizes : Groups A → ℕ
  group_sizes [] = 0
  group_sizes ((j, members) ∷ gs) = length members + group_sizes gs

  -- Distinct keys, and no group is empty.
  abbrev pub IsGrouping : Groups A → Type ℓ
  IsGrouping [] = Unit
  IsGrouping ((j, members) ∷ gs) =
      (contains (group_keys gs) j ≡ false) × (members ≢ []) × IsGrouping gs

  group_sizes-add_to :
      (k : Text) (a : A) (gs : Groups A) → group_sizes (add_to k a gs) ≡ group_sizes gs + 1
  unfolding add_to
  group_sizes-add_to k a [] = omega arith
  group_sizes-add_to k a ((j, members) ∷ gs) =
      ground (arith, group_sizes-add_to k a gs, length-append members (a ∷ []))

  contains-add_to :
      (k : Text) (a : A) (gs : Groups A) (j : Text)
      → contains (group_keys (add_to k a gs)) j ≡ (contains (group_keys gs) j || j == k)
  unfolding add_to
  contains-add_to k a [] j = ground arith
  contains-add_to k a ((i, members) ∷ gs) j = ground (arith, contains-add_to k a gs j)

  get_group-add_to :
      (k : Text) (a : A) (gs : Groups A) (j : Text)
      → get_group j (add_to k a gs)
        ≡ (if k == j then get_group j gs ++ (a ∷ []) else get_group j gs)
  unfolding add_to
  get_group-add_to k a [] j = ground arith
  get_group-add_to k a ((i, members) ∷ gs) j = ground (arith, get_group-add_to k a gs j)

  snoc-ne-nil : (xs : List A) (a : A) → xs ++ (a ∷ []) ≢ []
  snoc-ne-nil [] a e = cc
  snoc-ne-nil (x ∷ xs) a e = cc

  pub add_to-IsGrouping :
      (k : Text) (a : A) (gs : Groups A) → IsGrouping gs → IsGrouping (add_to k a gs)
  unfolding add_to
  add_to-IsGrouping k a [] g = (refl, (λ e. cc), tt)
  add_to-IsGrouping k a ((j, members) ∷ gs) g = elim (Bool-cases (j == k)) [
    | inl same ↦ rw same (g.0, snoc-ne-nil members a, g.2)
    | inr other ↦
        rw other (contains-add_to k a gs j ∙ ground arith, g.1, add_to-IsGrouping k a gs g.2)
  ]

  group_onto-IsGrouping :
      (key : A → Text) (gs : Groups A) (xs : List A)
      → IsGrouping gs
      → IsGrouping (group_onto key gs xs)
  unfolding group_onto
  group_onto-IsGrouping key gs [] g = g
  group_onto-IsGrouping key gs (x ∷ xs) g =
      group_onto-IsGrouping key (add_to (key x) x gs) xs (add_to-IsGrouping (key x) x gs g)

  pub group_by-IsGrouping : (key : A → Text) (xs : List A) → IsGrouping (group_by key xs)
  unfolding group_by
  group_by-IsGrouping key xs = group_onto-IsGrouping key [] xs tt

  group_sizes-group_onto :
      (key : A → Text) (gs : Groups A) (xs : List A)
      → group_sizes (group_onto key gs xs) ≡ group_sizes gs + length xs
  unfolding group_onto
  group_sizes-group_onto key gs [] = omega arith
  group_sizes-group_onto key gs (x ∷ xs) =
      omega (
        arith,
        group_sizes-group_onto key (add_to (key x) x gs) xs,
        group_sizes-add_to (key x) x gs,
      )

  pub group_sizes-group_by :
      (key : A → Text) (xs : List A) → group_sizes (group_by key xs) ≡ length xs
  unfolding group_by
  group_sizes-group_by key xs = omega (arith, group_sizes-group_onto key [] xs)

  get_group-group_onto :
      (key : A → Text) (gs : Groups A) (xs : List A) (k : Text)
      → get_group k (group_onto key gs xs) ≡ get_group k gs ++ keep (λ x. key x == k) xs
  unfolding group_onto
  get_group-group_onto key gs [] k = sym (append-nil (get_group k gs))
  get_group-group_onto key gs (x ∷ xs) k = elim (Bool-cases (key x == k)) [
    | inl same ↦
        rw (get_group-group_onto key (add_to (key x) x gs) xs k, get_group-add_to, same)
          (rw append_assoc)
    | inr other ↦ rw (get_group-group_onto key (add_to (key x) x gs) xs k, get_group-add_to, other)
  ]

  -- A group holds the elements of its key, in their order.
  pub get_group-group_by :
      (key : A → Text) (xs : List A) (k : Text)
      → get_group k (group_by key xs) ≡ keep (λ x. key x == k) xs
  unfolding group_by
  get_group-group_by key xs k = get_group-group_onto key [] xs k

  members_past :
      (j : Text) (m : List A) (gs hs : Groups A)
      → contains (group_keys hs) j ≡ false
      → All (λ (k, members). members ≡ get_group k gs) hs
      → All (λ (k, members). members ≡ get_group k ((j, m) ∷ gs)) hs
  members_past j m gs [] new h = tt
  members_past j m gs ((k, members) ∷ hs) new h =
      (ground (arith, h.0), members_past j m gs hs (ground arith) h.1)

  -- Each group of a grouping is found under its key.
  pub members-get_group :
      (gs : Groups A) → IsGrouping gs → All (λ (k, members). members ≡ get_group k gs) gs
  members-get_group [] g = tt
  members-get_group ((j, m) ∷ gs) g =
      (ground arith, members_past j m gs gs g.0 (members-get_group gs g.2))

  pub IsGrouping-Distinct : (gs : Groups A) → IsGrouping gs → Distinct (group_keys gs)
  IsGrouping-Distinct [] g = tt
  IsGrouping-Distinct (x ∷ gs) g = (g.0, IsGrouping-Distinct gs g.2)

  -- So each group holds the elements of its key.
  pub group_by-members :
      (key : A → Text) (xs : List A)
      → All (λ (k, members). members ≡ keep (λ x. key x == k) xs) (group_by key xs)
  group_by-members key xs =
      subst (λ (f : Text → List A). All (λ (k, members). members ≡ f k) (group_by key xs))
        (fun_ext (get_group-group_by key xs))
        (members-get_group (group_by key xs) (group_by-IsGrouping key xs))
