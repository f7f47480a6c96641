-- ===== src/Dispatcher/Contents.antt =====
-- What the merged groups of a dispatch hold.
use mathlib.Core.List.{append_assoc, append-nil}
use mathlib.Core.Path.{ap₂}
use celine_grid.Prelude.{
  ℕ, ◌+◌, Text, text, ◌==◌, text_eq, contains, if◌then◌else◌, Bool, ◌||◌, List, [], ◌∷◌, ◌++◌, map,
  ◌≡◌, refl, ◌∙◌, sym, ap, arith, suc, subst, any, keep, All, length,
}
use celine_grid.Prelude.Groups.{
  Groups, group_by, group_by-IsGrouping, group_keys, IsGrouping-Distinct, group_sizes,
  group_sizes-group_by, group_by-members,
}
use celine_grid.Prelude.Perms.{Distinct, sum_by}
use celine_grid.Models.{AlertRule}
use celine_grid.Recipients.{synthetic_email_user_id}
use celine_grid.Prelude.Pointwise.{keep_ext}
use celine_grid.Dispatcher.{
  Triggered, Group, update_set, add_rule, recipient_id, merge_by_recipients,
}
use celine_grid.Dispatcher.Groups.{
  add_rules, group_of, user_id-group_of, merge_by_recipients-group_by,
}

abbrev pub rule_of : Triggered → AlertRule
rule_of t = t.rule

abbrev pub warns : Triggered → Bool
warns t = t.rule.threshold == text "WARNING"

if-or :
    (a b : Bool) (x y : Text) → (if b then x else if a then x else y) ≡ (if a || b then x else y)
if-or a b x y = ground arith

or_assoc : (a b c : Bool) → ((a || b) || c) ≡ (a || (b || c))
or_assoc a b c = ground arith

contains-snoc :
    (vs : List Text) (v u : Text) → contains (vs ++ (v ∷ [])) u ≡ (contains vs u || u == v)
contains-snoc [] v u = ground arith
contains-snoc (w ∷ vs) v u = ground (arith, contains-snoc vs v u)

contains-update_set :
    (vs more : List Text) (u : Text)
    → contains (update_set vs more) u ≡ (contains vs u || contains more u)
unfolding update_set
contains-update_set vs [] u = ground arith
contains-update_set vs (v ∷ more) u = ground (
  arith,
  contains-snoc vs v u,
  contains-update_set vs more u,
  contains-update_set (vs ++ (v ∷ [])) more u,
)

rules-add_rules :
    (g : Group) (ts : List Triggered) → (add_rules g ts).rules ≡ g.rules ++ map rule_of ts
unfolding add_rule
rules-add_rules g [] = sym (append-nil g.rules)
rules-add_rules g (t ∷ ts) = rules-add_rules (add_rule g t) ts ∙ append_assoc g.rules _ _

threshold-add_rules :
    (g : Group) (ts : List Triggered)
    → (add_rules g ts).threshold ≡ (if any warns ts then text "WARNING" else g.threshold)
unfolding add_rule
threshold-add_rules g [] = refl
threshold-add_rules g (t ∷ ts) =
    threshold-add_rules (add_rule g t) ts ∙ if-or (warns t) (any warns ts) _ _

vectors-add_rules :
    (g : Group) (ts : List Triggered) (v : Text)
    → contains (add_rules g ts).vectors v
      ≡ (contains g.vectors v || any (λ t. contains t.vectors v) ts)
unfolding add_rule
vectors-add_rules g [] v = ground arith
vectors-add_rules g (t ∷ ts) v =
    vectors-add_rules (add_rule g t) ts v
    ∙ ap (λ b. b || any (λ u. contains u.vectors v) ts) (contains-update_set g.vectors t.vectors v)
    ∙ or_assoc (contains g.vectors v) (contains t.vectors v) _

recipients-add_rules :
    (g : Group) (ts : List Triggered) → (add_rules g ts).recipients ≡ g.recipients
unfolding add_rule
recipients-add_rules g [] = refl
recipients-add_rules g (t ∷ ts) = recipients-add_rules (add_rule g t) ts

-- The addresses of the first.
abbrev pub first_recipients : List Triggered → List Text
first_recipients [] = []
first_recipients (t ∷ ts) = t.recipients

-- What a group is, if the triggered rules `ts` are its own: it names them in their order, it has the
-- addresses of the first, its threshold is WARNING when one of them asks for it, and its hazards are
-- theirs.
abbrev pub Holds : Text → List Triggered → Group → Type 0
Holds v ts g =
    (g.rules ≡ map rule_of ts)
    × (g.recipients ≡ first_recipients ts)
    × (g.threshold ≡ (if any warns ts then text "WARNING" else text "ALERT"))
    × (contains g.vectors v ≡ any (λ t. contains t.vectors v) ts)

rules-group_of : (id : Text) (ts : List Triggered) → (group_of (id, ts)).rules ≡ map rule_of ts
rules-group_of id [] = refl
rules-group_of id (t ∷ ts) = rules-add_rules _ (t ∷ ts)

group_of-Holds : (v id : Text) (ts : List Triggered) → Holds v ts (group_of (id, ts))
group_of-Holds v id [] = (refl, refl, refl, refl)
group_of-Holds v id (t ∷ ts) = (
  rules-add_rules _ (t ∷ ts),
  recipients-add_rules _ (t ∷ ts),
  threshold-add_rules _ (t ∷ ts),
  vectors-add_rules _ (t ∷ ts) v,
)

map-rules : (ts : List Triggered) → length (map rule_of ts) ≡ length ts
map-rules [] = refl
map-rules (t ∷ ts) = ap suc (map-rules ts)

abbrev pub rule_count : Group → ℕ
rule_count g = length g.rules

abbrev pub id_of : Group → Text
id_of g = g.user_id

counts-groups : (gs : Groups Triggered) → sum_by rule_count (map group_of gs) ≡ group_sizes gs
counts-groups [] = refl
counts-groups ((id, ts) ∷ gs) =
    ap₂ ◌+◌ (ap length (rules-group_of id ts) ∙ map-rules ts) (counts-groups gs)

ids-groups : (gs : Groups Triggered) → map id_of (map group_of gs) ≡ group_keys gs
ids-groups [] = refl
ids-groups ((id, ts) ∷ gs) = ap₂ ◌∷◌ (user_id-group_of id ts) (ids-groups gs)

module _ (lower hexdigest : Text → Text) where
  -- Who a report is for: the user where there is no address, and else the addresses, by their id.
  abbrev pub id_for : Text → List Text → Text
  id_for user [] = user
  id_for user (e ∷ es) = synthetic_email_user_id lower hexdigest (e ∷ es)

  -- The rules that triggered for whom the group is for.
  abbrev pub own : List Triggered → Group → List Triggered
  own ts g = keep (λ t. id_for t.rule.user_id t.recipients == g.user_id) ts

  recipient_id-id_for :
      (t : Triggered) → recipient_id lower hexdigest t ≡ id_for t.rule.user_id t.recipients
  unfolding recipient_id
  recipient_id-id_for t = go t.recipients
    where
      go :
          (es : List Text)
          → elim es [
            | [] ↦ t.rule.user_id
            | e ∷ es ↦ synthetic_email_user_id lower hexdigest (e ∷ es)
          ]
            ≡ id_for t.rule.user_id es
      go [] = refl
      go (e ∷ es) = refl

  Holds-own :
      (v : Text) (ts : List Triggered) (gs : Groups Triggered)
      → All (λ (id, members). members ≡ keep (λ t. recipient_id lower hexdigest t == id) ts) gs
      → All (λ g. Holds v (own ts g) g) (map group_of gs)
  Holds-own v ts [] h = tt
  Holds-own v ts ((id, members) ∷ gs) h = (head, Holds-own v ts gs h.1)
    where
      head : Holds v (own ts (group_of (id, members))) (group_of (id, members))
      head =
          subst (λ ms. Holds v ms (group_of (id, members)))
            (h.0
              ∙ ap (λ u. keep (λ t. recipient_id lower hexdigest t == u) ts)
                  (sym (user_id-group_of id members))
              ∙ keep_ext _ _ ts
                  (λ t. ap (λ u. u == (group_of (id, members)).user_id) (recipient_id-id_for t)))
            (group_of-Holds v id members)

  -- The merged groups have distinct ids, and together they name as many rules as triggered.
  pub merge_by_recipients_partition :
      (ts : List Triggered)
      → let gs = merge_by_recipients lower hexdigest ts in
        Distinct (map id_of gs) × (sum_by rule_count gs ≡ length ts)
  merge_by_recipients_partition ts =
      let key = recipient_id lower hexdigest in
      rw merge_by_recipients-group_by (
        rw (ids-groups (group_by key ts)) (IsGrouping-Distinct _ (group_by-IsGrouping key ts)),
        counts-groups (group_by key ts) ∙ group_sizes-group_by key ts,
      )

  -- A group has an id, and names exactly the rules that triggered for this id, in their order: the id
  -- of a rule with addresses is the synthetic one of its addresses, that of any other its user. The
  -- group has the addresses of the first of them; its threshold is WARNING when one of them asks for
  -- WARNING and ALERT otherwise; and a hazard is among its hazards exactly when one of them triggered
  -- for it.
  pub merge_by_recipients-Holds :
      (ts : List Triggered) (v : Text)
      → All (λ g. Holds v (own ts g) g) (merge_by_recipients lower hexdigest ts)
  merge_by_recipients-Holds ts v =
      let key = recipient_id lower hexdigest in
      rw merge_by_recipients-group_by (Holds-own v ts (group_by key ts) (group_by-members key ts))
