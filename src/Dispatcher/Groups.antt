-- ===== src/Dispatcher/Groups.antt =====
-- The groups of a dispatch: one for each recipient list, which holds all that triggered for it.
use celine_grid.Prelude.{
  Text, ◌==◌, text_eq, if◌then◌else◌, true, false, List, [], ◌∷◌, ◌++◌, map, ◌≡◌, ◌≢◌, refl, ◌∙◌,
  sym, ap, Bool-cases, inl, inr,
}
use celine_grid.Prelude.Groups.{Groups, group_by, group_onto, add_to, add_to-IsGrouping, IsGrouping}
use celine_grid.Dispatcher.{
  Triggered, Group, add_rule, new_group, merge_one, recipient_id, merge_onto, merge_by_recipients,
}

-- The rules that triggered, one after the other.
abbrev pub add_rules : Group → List Triggered → Group
add_rules g [] = g
add_rules g (t ∷ ts) = add_rules (add_rule g t) ts

-- The group of an id, made of all that triggered for it.
abbrev pub group_of : Text × List Triggered → Group
group_of (id, []) = new_group id []
group_of (id, t ∷ ts) = add_rules (new_group id t.recipients) (t ∷ ts)

add_rules-append :
    (g : Group) (ts us : List Triggered) → add_rules g (ts ++ us) ≡ add_rules (add_rules g ts) us
add_rules-append g [] us = refl
add_rules-append g (t ∷ ts) us = add_rules-append (add_rule g t) ts us

group_of-snoc :
    (id : Text) (ts : List Triggered) (t : Triggered)
    → ts ≢ []
    → group_of (id, ts ++ (t ∷ [])) ≡ add_rule (group_of (id, ts)) t
group_of-snoc id [] t ne = absurd (ne refl)
group_of-snoc id (u ∷ ts) t ne =
    add_rules-append (add_rule (new_group id u.recipients) u) ts (t ∷ [])

user_id-add_rules : (g : Group) (ts : List Triggered) → (add_rules g ts).user_id ≡ g.user_id
unfolding add_rule
user_id-add_rules g [] = refl
user_id-add_rules g (t ∷ ts) = user_id-add_rules (add_rule g t) ts

pub user_id-group_of : (id : Text) (ts : List Triggered) → (group_of (id, ts)).user_id ≡ id
user_id-group_of id [] = refl
user_id-group_of id (t ∷ ts) = user_id-add_rules (new_group id t.recipients) (t ∷ ts)

merge_one-nil :
    (id : Text) (t : Triggered) → merge_one id t [] ≡ add_rule (new_group id t.recipients) t ∷ []
unfolding merge_one
merge_one-nil id t = refl

merge_one-same :
    (id : Text) (t : Triggered) (g : Group) (gs : List Group)
    → (g.user_id == id) ≡ true
    → merge_one id t (g ∷ gs) ≡ add_rule g t ∷ gs
unfolding merge_one
merge_one-same id t g gs h = ap (λ b. if b then add_rule g t ∷ gs else g ∷ merge_one id t gs) h

merge_one-other :
    (id : Text) (t : Triggered) (g : Group) (gs : List Group)
    → (g.user_id == id) ≡ false
    → merge_one id t (g ∷ gs) ≡ g ∷ merge_one id t gs
unfolding merge_one
merge_one-other id t g gs h = ap (λ b. if b then add_rule g t ∷ gs else g ∷ merge_one id t gs) h

merge_one-map :
    (id : Text) (t : Triggered) (gs : Groups Triggered)
    → IsGrouping gs
    → merge_one id t (map group_of gs) ≡ map group_of (add_to id t gs)
unfolding add_to
merge_one-map id t [] h = merge_one-nil id t
merge_one-map id t ((j, ts) ∷ gs) h = elim (Bool-cases (j == id)) [
  | inl same ↦
      merge_one-same id t (group_of (j, ts)) (map group_of gs)
        (ap (λ u. u == id) (user_id-group_of j ts) ∙ same)
      ∙ rw same (ap (λ g. g ∷ map group_of gs) (sym (group_of-snoc j ts t h.1)))
  | inr other ↦
      merge_one-other id t (group_of (j, ts)) (map group_of gs)
        (ap (λ u. u == id) (user_id-group_of j ts) ∙ other)
      ∙ rw other (ap (◌∷◌ (group_of (j, ts))) (merge_one-map id t gs h.2))
]

module _ (lower hexdigest : Text → Text) where
  merge_onto-map :
      (gs : Groups Triggered) (ts : List Triggered)
      → IsGrouping gs
      → merge_onto lower hexdigest (map group_of gs) ts
        ≡ map group_of (group_onto (recipient_id lower hexdigest) gs ts)
  unfolding merge_onto group_onto
  merge_onto-map gs [] h = refl
  merge_onto-map gs (t ∷ ts) h =
      let id = recipient_id lower hexdigest t in
      rw (merge_one-map id t gs h)
        (merge_onto-map (add_to id t gs) ts (add_to-IsGrouping id t gs h))

  -- Merging is grouping by the id of the recipients, each group then made of its own rules.
  pub merge_by_recipients-group_by :
      (ts : List Triggered)
      → merge_by_recipients lower hexdigest ts
        ≡ map group_of (group_by (recipient_id lower hexdigest) ts)
  unfolding merge_by_recipients group_by
  merge_by_recipients-group_by ts = merge_onto-map [] ts tt
