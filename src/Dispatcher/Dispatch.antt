-- ===== src/Dispatcher/Dispatch.antt =====
-- `_build_report_payload` and `dispatch_grid_alerts`
-- (src/celine/grid/services/alert_dispatcher.py).
use celine_grid.Prelude.{
  ℕ, ◌+◌, Text, text, ◌==◌, text_eq, if◌then◌else◌, Bool, ◌&&◌, Option, none, some, List, [], ◌∷◌,
  keep, sorted, text_lt,
}
use celine_grid.Values.{Floats, Value, Row}
use celine_grid.Models.{AlertRule, Db, index_error, Result, ok, raise, ◌>>=◌}
use celine_grid.RiskSummary.Days.{Day}
use celine_grid.RiskSummary.Checked.{checked_triggered_vectors, checked_build_days}
use celine_grid.Dispatcher.{
  Triggered, Group, rule_email_recipients, merge_by_recipients, risk_km_limit, top_lines,
}

module _ (fl : Floats) (repr : Value fl.F → Text) where
  -- The payload; `event_type`, `scenario` and `facts_version` are the same in all.
  pub record Report : Type 0 where
    pub user_id : Text
    pub period : Text
    pub dates : List Text
    pub network_id : Text
    pub threshold : Text
    pub risk_types : List Text
    pub generated_at : Text
    pub app_url : Text
    pub email_recipients : List Text
    pub days : List (Day fl repr)

  -- The services. `fetch_values` gets the network, the fetcher, the dates, the level and the limit,
  -- and gives the items, or `none` for any exception; `ingest_event` tells whether it returned.
  pub record Platform : Type 1 where
    pub World : Type 0
    pub now : World → Text
    pub fetch_values : Text → Text → List Text → Text → ℕ → World → Option (List (Row fl.F)) × World
    pub ingest_event : Report → World → Bool × World

  -- `dates[0]` of an empty list raises, and so do the numbers of the rows beyond the floats.
  unfoldable pub build_report_payload :
      Text → Text → Text → Group → List (Row fl.F) → List Text → Result Report
  build_report_payload app_url generated_at network_id group rows [] = raise index_error
  build_report_payload app_url generated_at network_id group rows (date ∷ dates) =
      let vectors = sorted text_lt group.vectors in
      checked_build_days fl repr rows (date ∷ dates) vectors (some group.threshold) top_lines
      >>= λ days. ok (record {
        user_id = group.user_id;
        period = date;
        dates = date ∷ dates;
        network_id = network_id;
        threshold = group.threshold;
        risk_types = vectors;
        generated_at = generated_at;
        app_url = app_url;
        email_recipients = group.recipients;
        days = days;
      })

  -- `list(rule.risk_types or [])`
  unfoldable pub types_of : AlertRule → List Text
  types_of rule = elim rule.risk_types [ none ↦ [] | some types ↦ types ]

  -- A rule without hazards is passed over before its recipients are looked up.
  unfoldable pub add_triggered :
      AlertRule → List Text → Result (List Text) → Result (List Triggered) → Result (List Triggered)
  add_triggered rule [] recipients rest = rest
  add_triggered rule (v ∷ vs) recipients rest = recipients >>= λ es.
      (rest >>= λ triggered.
      ok (record { rule = rule; vectors = v ∷ vs; recipients = es } ∷ triggered))

  -- The rules of a network that are active.
  unfoldable pub active_rules : Text → Db → List AlertRule
  active_rules network_id db = keep (λ r. r.network_id == network_id && r.active) db.rules

  -- `lower` is `str.lower`, `hexdigest` the hexadecimal SHA-256, `app_url` the public URL.
  module _ (lower hexdigest : Text → Text) (app_url : Text) (db : Db) where
    -- Which rules trigger, and for which hazards.
    unfoldable pub evaluate : List (Row fl.F) → List AlertRule → Result (List Triggered)
    evaluate rows [] = ok []
    evaluate rows (rule ∷ rules) =
        let rest = evaluate rows rules in
        checked_triggered_vectors fl repr rows (some rule.threshold) (types_of rule) >>= λ vectors.
        add_triggered rule vectors (rule_email_recipients lower hexdigest rule db) rest

    module _ (p : Platform) where
      open p use {World, now, fetch_values, ingest_event}

      -- One report for each group; a failed one does not stop the others.
      unfoldable pub send_reports :
          Text → List (Row fl.F) → List Text → ℕ → List Group → World → Result ℕ × World
      send_reports network_id rows dates sent [] w = (ok sent, w)
      send_reports network_id rows dates sent (group ∷ groups) w =
          elim (build_report_payload app_url (now w) network_id group rows dates) [
            | raise e ↦ (raise e, w)
            | ok report ↦
                let (accepted, w') = ingest_event report w in
                send_reports network_id rows dates (if accepted then sent + 1 else sent) groups w'
          ]

      unfoldable pub send_triggered :
          Text → List (Row fl.F) → List Text → Result (List Triggered) → World → Result ℕ × World
      send_triggered network_id rows dates (raise e) w = (raise e, w)
      send_triggered network_id rows dates (ok triggered) w =
          send_reports network_id rows dates 0 (merge_by_recipients lower hexdigest triggered) w

      -- The rules that trigger, and the reports, if there are rows.
      unfoldable pub dispatch_rows :
          Text → List Text → List AlertRule → Option (List (Row fl.F)) → World → Result ℕ × World
      dispatch_rows network_id dates rules none w = (ok 0, w)
      dispatch_rows network_id dates rules (some []) w = (ok 0, w)
      dispatch_rows network_id dates rules (some (row ∷ rows)) w =
          send_triggered network_id (row ∷ rows) dates (evaluate (row ∷ rows) rules) w

      -- From the rules on: the exposure table is fetched only if there are any.
      unfoldable pub dispatch_rules : Text → List Text → List AlertRule → World → Result ℕ × World
      dispatch_rules network_id dates [] w = (ok 0, w)
      dispatch_rules network_id dates (rule ∷ rules) w =
          let (fetched, w') =
            fetch_values network_id (text "risk_km") dates (text "tratta") risk_km_limit w in
          dispatch_rows network_id dates (rule ∷ rules) fetched w'

      unfoldable pub dispatch_grid_alerts : Text → List Text → World → Result ℕ × World
      dispatch_grid_alerts network_id [] w = (ok 0, w)
      dispatch_grid_alerts [] (date ∷ dates) w = (ok 0, w)
      dispatch_grid_alerts (c ∷ network_id) (date ∷ dates) w =
          dispatch_rules (c ∷ network_id) (date ∷ dates) (active_rules (c ∷ network_id) db) w
