-- ===== src/Tests/Alerts.antt =====
-- Calls of the alerts API by two users.
use celine_grid.Prelude.{
  inl, All, Text, text, text_eq, ◌==◌, ◌≡◌, refl, sorted, true, false, ◌&&◌, if◌then◌else◌, none,
  some, List, [], ◌∷◌, ◌++◌,
}
use celine_grid.Models.{
  NotificationSettings, Db, ok, raise, response_validation, scalar_one_or_none, settings_of,
}
use celine_grid.Identity.{JwtUser, absent, dso_type, is_dso, dso_networks}
use celine_grid.Access.{resolve_networks, resolve_dso_network}
use celine_grid.Dispatcher.Dispatch.{active_rules}
use celine_grid.Prelude.{◌⊎◌}
use celine_grid.Prelude.{In}
use celine_grid.Models.{AlertRule}
use celine_grid.Alerts.Handlers.{list_alert_rules}
use celine_grid.Alerts.Listing.{HasTypes, own_rules, IsListing, list_alert_rules-IsListing}
use celine_grid.Alerts.{unset, set, AlertRuleCreate, AlertRuleUpdate, NotificationSettingsUpdate}
use celine_grid.Alerts.Handlers.{
  update_alert_rule, update_found, own_rule, set_fields, columns_of, not_null, nullable, stamp,
  same_rule, same_texts, write_rule, respond, has_rule, new_rule, create_alert_rule,
  delete_alert_rule,
}
use celine_grid.Alerts.Settings.{
  has_settings, get_notification_settings, update_notification_settings,
}
use celine_grid.Alerts.Isolation.{WellFormed}
use celine_grid.Alerts.Runs.{create_rule, Call, update_rule, after_all}
use celine_grid.Alerts.Outcomes.{
  IsDeleted, IsAskedFor, create_alert_rule-active_rules, update-get_notification_settings,
  delete_alert_rule-not_found,
}
use celine_grid.Alerts.ValidRules.{IsValid}
use celine_grid.Alerts.Validity.{after_all-All}
use celine_grid.Tests.Data.{wholes, no_repr}

abbrev member : Text → Text → JwtUser
member sub network = record {
  sub = sub;
  email = none;
  organizations =
      record { alias = network; type = some dso_type; has_attribute = λ n v. false } ∷ [];
  is_service_account = false;
  scope = absent;
  organization_groups = λ n. [];
  name = none;
  preferred_username = none;
  locale = none;
}

abbrev pub ada : JwtUser
ada = member (text "ada") (text "net-a")

abbrev pub bob : JwtUser
bob = member (text "bob") (text "net-a")

abbrev pub wind_rule : AlertRuleCreate
wind_rule = record {
  risk_types = text "wind" ∷ [];
  threshold = text "ALERT";
  recipients = none;
  active = true;
}

abbrev pub to_warning : AlertRuleUpdate
to_warning = record {
  risk_types = unset;
  threshold = set (some (text "WARNING"));
  recipients = unset;
  active = unset;
}

abbrev pub night : NotificationSettingsUpdate
night = record { email_recipients = set (some (text "night@dso.it")); webhook_url = unset }

-- A rule and the settings of Ada.
abbrev pub stored : Db
stored = record {
  rules = new_rule 1 10 (text "ada") (text "net-a") wind_rule ∷ [];
  settings =
      record {
        id = 1;
        user_id = text "ada";
        email_recipients = none;
        webhook_url = none;
        created_at = 10;
        updated_at = 10;
      }
      ∷ [];
}

pub stored-WellFormed : WellFormed stored
unfolding settings_of
stored-WellFormed = ((refl, tt), (refl, tt), (refl, tt))

ada_network : resolve_dso_network ada ≡ ok (text "net-a")
unfolding resolve_dso_network resolve_networks dso_networks is_dso text_eq sorted
ada_network = refl

create_alert_rule-active_rules_example :
    let (result, db') = create_alert_rule 2 20 wind_rule ada stored in
    (rule : AlertRule) × IsAskedFor wholes no_repr 2 20 (text "ada") (text "net-a") wind_rule rule
    × (result ≡ ok rule)
    × (active_rules wholes no_repr (text "net-a") db'
        ≡ active_rules wholes no_repr (text "net-a") stored
          ++ (if text "net-a" == text "net-a" && wind_rule.active then rule ∷ [] else []))
unfolding has_rule
create_alert_rule-active_rules_example =
    create_alert_rule-active_rules wholes no_repr 2 20 wind_rule ada stored (text "net-a")
      (text "net-a") refl ada_network

update-get_notification_settings_example :
    let (result, db') = update_notification_settings 2 20 night bob stored in
    (ns : NotificationSettings) × (result ≡ ok ns)
    × (get_notification_settings 3 30 bob db' ≡ (ok ns, db'))
unfolding has_settings
update-get_notification_settings_example =
    update-get_notification_settings 2 20 3 30 night bob stored stored-WellFormed refl

delete_alert_rule-not_found_example : IsDeleted 1 to_warning 30 ada (delete_alert_rule 1 ada stored)
delete_alert_rule-not_found_example =
    delete_alert_rule-not_found 1 to_warning 30 ada stored stored-WellFormed

stored-IsValid : All IsValid stored.rules
stored-IsValid = ((inl refl, (inl refl, tt)), tt)

abbrev pub own_calls : List (JwtUser × Call)
own_calls = (ada, update_rule 1 to_warning 20) ∷ (bob, create_rule 2 30 wind_rule) ∷ []

after_all-All_example : All IsValid (after_all own_calls stored).rules
after_all-All_example = after_all-All own_calls stored stored-IsValid

-- A null for the hazards is stored, and the answer fails.
abbrev no_hazards : AlertRuleUpdate
no_hazards = record { risk_types = set none; threshold = unset; recipients = unset; active = unset }

hazards_lost : (update_alert_rule 1 no_hazards 20 ada stored).0 ≡ raise response_validation
unfolding update_alert_rule update_found own_rule scalar_one_or_none set_fields columns_of not_null
    nullable stamp same_rule same_texts write_rule respond text_eq
hazards_lost = refl

list_alert_rules-IsListing_example :
    ((rules : List AlertRule) × (list_alert_rules ada stored ≡ ok rules)
      × IsListing ada stored rules
      × All HasTypes rules)
    ⊎ (list_alert_rules ada stored ≡ raise response_validation)
      × ((r : AlertRule) × In r (own_rules ada stored) × (r.risk_types ≡ none))
list_alert_rules-IsListing_example = list_alert_rules-IsListing ada stored
