-- ===== src/Alerts/SameColumns.antt =====
-- What the fields of an update are, and that the comparison of columns is equality.
use celine_grid.Prelude.{
  Text, text_eq, ==_iff, Bool, true, Option, none, some, List, [], ◌∷◌, ◌≡◌, refl, ap, arith,
  if◌then◌else◌,
}
use celine_grid.Alerts.{Field, unset, set, is_null, given}
use celine_grid.Alerts.Handlers.{not_null, same_texts, same_option, same_text}

-- The test is that of equality.
abbrev pub IsSame {ℓ} : {A : Type ℓ} → (A → A → Bool) → Type ℓ
IsSame {A} same = ((a b : A) → same a b ≡ true → a ≡ b) × ((a : A) → same a a ≡ true)

pub same_text-IsSame : IsSame same_text
same_text-IsSame = ((λ a b. (==_iff a b).0), λ a. (==_iff a a).1 refl)

same_texts_sound : (ss ts : List Text) → same_texts ss ts ≡ true → ss ≡ ts
unfolding same_texts
same_texts_sound [] [] e = refl
same_texts_sound [] (t ∷ ts) e = cc
same_texts_sound (s ∷ ss) [] e = cc
same_texts_sound (s ∷ ss) (t ∷ ts) e = ground (arith, same_texts_sound ss ts)

same_texts_refl : (ss : List Text) → same_texts ss ss ≡ true
unfolding same_texts
same_texts_refl [] = refl
same_texts_refl (s ∷ ss) = rw (same_texts_refl ss, (==_iff s s).1 refl) refl

pub same_texts-IsSame : IsSame same_texts
same_texts-IsSame = (same_texts_sound, same_texts_refl)

module _ {ℓ} {A : Type ℓ} (same : A → A → Bool) (is_same : IsSame same) where
  same_option_sound : (a b : Option A) → same_option same a b ≡ true → a ≡ b
  same_option_sound none none e = refl
  same_option_sound none (some b) e = cc
  same_option_sound (some a) none e = cc
  same_option_sound (some a) (some b) e = ap some (is_same.0 a b e)

  same_option_refl : (a : Option A) → same_option same a a ≡ true
  same_option_refl none = refl
  same_option_refl (some a) = is_same.1 a

  pub same_option-IsSame : IsSame (same_option same)
  same_option-IsSame = (same_option_sound, same_option_refl)

pub not_null-given {ℓ} :
    {A : Type ℓ} (field : Field A) (old : A)
    → not_null field old ≡ (if is_null field then none else some (given field old))
unfolding not_null
not_null-given unset old = refl
not_null-given (set none) old = refl
not_null-given (set (some a)) old = refl
