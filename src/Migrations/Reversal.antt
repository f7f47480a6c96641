-- ===== src/Migrations/Reversal.antt =====
-- The migrations undo one another.
use celine_grid.Prelude.{text_eq, leb, true, none, List, [], ◌∷◌, map, length, ◌≡◌, refl, ap, All}
use celine_grid.Models.{NotificationSettings, ok, ◌>>=◌}
use celine_grid.Migrations.{
  FirstRule, SecondRule, first, upgrade_second, upgrade_third, downgrade_third, first_type,
  restored, downgrade_second, upgrade, downgrade,
}

-- The rule without its unit, which is lost.
abbrev pub without_unit : FirstRule → FirstRule
without_unit r = record r { operational_unit = none }

-- What the column of the hazard holds.
abbrev pub Fits : FirstRule → Type 0
Fits r = leb (length r.risk_type) 20 ≡ true

third-second : (rules : List SecondRule) → map downgrade_third (map upgrade_third rules) ≡ rules
unfolding downgrade_third upgrade_third
third-second [] = refl
third-second (r ∷ rules) = ap (◌∷◌ r) (third-second rules)

second-first :
    (rules : List FirstRule)
    → All Fits rules
    → downgrade_second (map upgrade_second rules) ≡ ok (map without_unit rules)
unfolding downgrade_second upgrade_second restored first_type
second-first [] h = refl
second-first (r ∷ rules) h = rw (h.0, second-first rules h.1) refl

-- From revision 001 two revisions up and two down again restore every rule but for its unit, and the
-- settings: no downgrade raises.
pub downgrade-upgrade :
    (rules : List FirstRule) (settings : List NotificationSettings)
    → All Fits rules
    → (downgrade (upgrade (upgrade (first rules settings))) >>= downgrade)
      ≡ ok (first (map without_unit rules) settings)
unfolding downgrade upgrade
downgrade-upgrade rules settings h =
    rw (third-second (map upgrade_second rules), second-first rules h) refl
