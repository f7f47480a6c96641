-- ===== src/Tests/Migrations.antt =====
-- A rule of the first revision, up and down.
use celine_grid.Prelude.{Text, text, text_eq, ◌≡◌, refl, true, none, some, List, [], ◌∷◌, map, All}
use celine_grid.Models.{Db, ok, ◌>>=◌}
use celine_grid.Dispatcher.Dispatch.{Platform, dispatch_grid_alerts}
use celine_grid.Listener.{networks_with_active_rules}
use celine_grid.Migrations.{FirstRule, first, third, upgrade, downgrade}
use celine_grid.Migrations.Reversal.{without_unit, downgrade-upgrade}
use celine_grid.Migrations.Silence.{upgrade-silent}
use celine_grid.Tests.Data.{wholes, no_repr, ascii_lower}

abbrev old_rules : List FirstRule
old_rules =
    record {
      id = 1;
      user_id = text "ada";
      risk_type = text "wind";
      threshold = text "ALERT";
      operational_unit = some (text "North");
      recipients = none;
      active = true;
      created_at = 1;
      updated_at = 2;
    }
    ∷ []

downgrade-upgrade_example :
    (downgrade (upgrade (upgrade (first old_rules []))) >>= downgrade)
    ≡ ok (first (map without_unit old_rules) [])
downgrade-upgrade_example = downgrade-upgrade old_rules [] (refl, tt)

upgrade-silent_example :
    (db : Db) × (upgrade (upgrade (first old_rules [])) ≡ third db)
    × All (λ r. r.network_id_unset ≡ true) db.rules
    × (networks_with_active_rules db ≡ [])
    × ((p : Platform wholes no_repr) (n : Text) (dates : List Text) (w : p.World)
        → dispatch_grid_alerts wholes no_repr ascii_lower (λ s. s) (text "app") db p n dates w
          ≡ (ok 0, w))
upgrade-silent_example =
    upgrade-silent wholes no_repr ascii_lower (λ s. s) (text "app") old_rules []
