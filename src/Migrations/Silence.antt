-- ===== src/Migrations/Silence.antt =====
-- Rules that were there before they had a network never fire.
use celine_grid.Prelude.{
  ◌==◌, Text, text_eq, true, not, ◌&&◌, List, [], ◌∷◌, map, keep, sorted, ◌≡◌, ◌≢◌, refl, All, inl,
  inr, arith,
}
use celine_grid.Values.{Floats, Value}
use celine_grid.Models.{AlertRule, NotificationSettings, Db, ok}
use celine_grid.Dispatcher.Dispatch.{Platform, active_rules, dispatch_grid_alerts}
use celine_grid.Dispatcher.Outcome.{dispatch_grid_alerts_silent}
use celine_grid.Listener.{networks_with_active_rules}
use celine_grid.RiskSummary.{distinct, sorted_set}
use celine_grid.Migrations.{FirstRule, first, third, upgrade_second, upgrade_third, upgrade}

module _ (fl : Floats) (repr : Value fl.F → Text) where
  upgraded : List FirstRule → List AlertRule
  upgraded rules = map upgrade_third (map upgrade_second rules)

  marked : (rules : List FirstRule) → All (λ r. r.network_id_unset ≡ true) (upgraded rules)
  unfolding upgraded upgrade_third upgrade_second text_eq
  marked [] = tt
  marked (r ∷ rules) = (refl, marked rules)

  none_named :
      (rules : List FirstRule)
      → keep (λ r. r.active && not (r.network_id == [])) (upgraded rules) ≡ []
  unfolding upgraded upgrade_third upgrade_second
  none_named [] = refl
  none_named (r ∷ rules) = ground (arith, none_named rules)

  none_of :
      (n : Text) (rules : List FirstRule)
      → n ≢ []
      → keep (λ r. r.network_id == n && r.active) (upgraded rules) ≡ []
  unfolding upgraded upgrade_third upgrade_second
  none_of n [] ne = refl
  none_of n (r ∷ rules) ne = ground (arith, none_of n rules ne)

  module _ (lower hexdigest : Text → Text) (app_url : Text) where
    silent_dispatch :
        (rules : List FirstRule) (settings : List NotificationSettings) (p : Platform fl repr)
        (n : Text) (dates : List Text) (w : p.World)
        → dispatch_grid_alerts fl repr lower hexdigest app_url
            (record { rules = upgraded rules; settings = settings })
            p
            n
            dates
            w
          ≡ (ok 0, w)
    unfolding active_rules
    silent_dispatch rules settings p [] dates w =
        dispatch_grid_alerts_silent fl repr lower hexdigest app_url _ p [] dates w (inr (inl refl))
    silent_dispatch rules settings p (c ∷ n) dates w =
        dispatch_grid_alerts_silent fl repr lower hexdigest app_url _ p (c ∷ n) dates w
          (inr (inr (none_of (c ∷ n) rules (λ e. cc))))

  -- Two revisions up from revision 001 every rule is marked as one of no network, there is no network
  -- with active rules, and a dispatch for any network, the empty one included, returns 0 and calls no
  -- service.
  pub upgrade-silent :
      (lower hexdigest : Text → Text) (app_url : Text) (rules : List FirstRule)
      (settings : List NotificationSettings)
      → (db : Db) × (upgrade (upgrade (first rules settings)) ≡ third db)
        × All (λ r. r.network_id_unset ≡ true) db.rules
        × (networks_with_active_rules db ≡ [])
        × ((p : Platform fl repr) (n : Text) (dates : List Text) (w : p.World)
            → dispatch_grid_alerts fl repr lower hexdigest app_url db p n dates w ≡ (ok 0, w))
  unfolding upgrade upgraded networks_with_active_rules sorted_set distinct sorted
  upgrade-silent lower hexdigest app_url rules settings = (
    record { rules = upgraded rules; settings = settings },
    refl,
    marked rules,
    rw (none_named rules) refl,
    λ p n dates w. silent_dispatch lower hexdigest app_url rules settings p n dates w,
  )
