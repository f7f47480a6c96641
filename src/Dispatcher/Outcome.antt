-- ===== src/Dispatcher/Outcome.antt =====
-- What a whole dispatch does.
use mathlib.Core.List.{append-nil}
use celine_grid.Prelude.{
  all, true, ℕ, Text, text, text_eq, false, Option, none, some, List, [], ◌∷◌, ◌≡◌, refl, ap, sym,
  arith, keep, ◌⊎◌, inl, inr,
}
use celine_grid.Values.{Floats, Value, Row}
use celine_grid.Models.{AlertRule, Db, Result, ok, HasUniqueUsers}
use celine_grid.RiskSummary.{triggered_vectors}
use celine_grid.RiskSummary.Checked.{is_readable, checked_triggered_vectors-ok}
use celine_grid.Dispatcher.{Triggered, merge_by_recipients, merge_onto, risk_km_limit}
use celine_grid.Dispatcher.Dispatch.{
  Platform, active_rules, add_triggered, types_of, evaluate, send_triggered, dispatch_rows,
  dispatch_rules, dispatch_grid_alerts,
}
use celine_grid.Dispatcher.Evaluation.{IsOk, evaluate-IsOk}
use celine_grid.Dispatcher.Sending.{recorded, Log, IsSent, send_reports-IsSent}

module _ (fl : Floats) (repr : Value fl.F → Text) where
  -- The rows that a dispatch judges the rules by: those of the Digital Twin, none if it was not asked
  -- or did not answer.
  abbrev pub items : Option (List (Row fl.F)) → List (Row fl.F)
  items none = []
  items (some rows) = rows

  abbrev pub exposure_of :
      (p : Platform fl repr) → Text → List Text → List AlertRule → p.World → List (Row fl.F)
  exposure_of p network_id dates [] w = []
  exposure_of p network_id dates (rule ∷ rules) w =
      items (p.fetch_values network_id (text "risk_km") dates (text "tratta") risk_km_limit w).0

  abbrev pub exposure :
      (p : Platform fl repr) → Text → List Text → List AlertRule → p.World → List (Row fl.F)
  exposure p network_id [] rules w = []
  exposure p [] (date ∷ dates) rules w = []
  exposure p (c ∷ network_id) (date ∷ dates) rules w =
      exposure_of p (c ∷ network_id) (date ∷ dates) rules w

  keep-none {ℓ} : {A : Type ℓ} (xs : List A) → keep (λ x. false) xs ≡ []
  keep-none [] = refl
  keep-none (x ∷ xs) = keep-none xs

  triggered_vectors-nil :
      (threshold : Option Text) (types : List Text)
      → triggered_vectors fl repr [] threshold types ≡ []
  unfolding triggered_vectors
  triggered_vectors-nil threshold types = keep-none types

  module _ (lower hexdigest : Text → Text) (app_url : Text) (db : Db) where
    -- Without rows nothing triggers.
    evaluate-nil :
        (rules : List AlertRule) → evaluate fl repr lower hexdigest app_url db [] rules ≡ ok []
    unfolding evaluate add_triggered
    evaluate-nil [] = refl
    evaluate-nil (rule ∷ rules) =
        rw
          (
            checked_triggered_vectors-ok fl repr [] (some rule.threshold) (types_of fl repr rule)
                refl,
            triggered_vectors-nil (some rule.threshold) (types_of fl repr rule),
            add_triggered,
          )
          (evaluate-nil rules)

    module _ (p : Platform fl repr) (u : HasUniqueUsers db.settings) where
      send_triggered-IsSent :
          (network_id : Text) (rows : List (Row fl.F)) (date : Text) (dates : List Text)
          (ts : List Triggered) (w : p.World) (before : Log fl repr)
          → all (is_readable fl repr) rows ≡ true
          → IsSent fl repr network_id
              (date ∷ dates)
              0
              (merge_by_recipients lower hexdigest ts)
              before
              (send_triggered fl repr lower hexdigest app_url db
                (recorded fl repr p)
                network_id
                rows
                (date ∷ dates)
                (ok ts)
                (w, before))
      unfolding send_triggered
      send_triggered-IsSent network_id rows date dates ts w before h =
          send_reports-IsSent fl repr lower hexdigest app_url db p network_id rows date dates 0 _ w
            before h

      nothing :
          (network_id : Text) (dates : List Text) (w : p.World) (before : Log fl repr)
          → IsSent fl repr network_id dates 0
              (merge_by_recipients lower hexdigest [])
              before
              (ok 0, (w, before))
      unfolding merge_by_recipients merge_onto
      nothing network_id dates w before = ([], sym (append-nil before), tt, ap ok (omega arith))

      -- The rules `rules`, judged by the rows `rows`, gave the triggered rules of which `out` is the
      -- outcome.
      abbrev pub IsDispatched :
          Text
          → List Text
          → List AlertRule
          → List (Row fl.F)
          → Log fl repr
          → Result ℕ × (p.World × Log fl repr)
          → Type 0
      IsDispatched network_id dates rules rows before out =
          (ts : List Triggered) × (evaluate fl repr lower hexdigest app_url db rows rules ≡ ok ts)
          × IsSent fl repr network_id dates 0 (merge_by_recipients lower hexdigest ts) before out

      send_triggered-IsDispatched :
          (network_id date : Text) (dates : List Text) (rules : List AlertRule)
          (rows : List (Row fl.F)) (w : p.World) (before : Log fl repr)
          → all (is_readable fl repr) rows ≡ true
          → IsOk (evaluate fl repr lower hexdigest app_url db rows rules)
          → IsDispatched network_id (date ∷ dates) rules rows before (
              send_triggered fl repr lower hexdigest app_url db
                (recorded fl repr p)
                network_id
                rows
                (date ∷ dates)
                (evaluate fl repr lower hexdigest app_url db rows rules)
                (w, before))
      send_triggered-IsDispatched network_id date dates rules rows w before h (ts, e) =
          (ts, e, rw e (send_triggered-IsSent network_id rows date dates ts w before h))

      dispatch_rows-IsDispatched :
          (network_id date : Text) (dates : List Text) (rules : List AlertRule)
          (fetched : Option (List (Row fl.F))) (w : p.World) (before : Log fl repr)
          → all (is_readable fl repr) (items fetched) ≡ true
          → IsDispatched network_id (date ∷ dates) rules (items fetched) before (
              dispatch_rows fl repr lower hexdigest app_url db
                (recorded fl repr p)
                network_id
                (date ∷ dates)
                rules
                fetched
                (w, before))
      unfolding dispatch_rows
      dispatch_rows-IsDispatched network_id date dates rules none w before h =
          ([], evaluate-nil rules, nothing network_id (date ∷ dates) w before)
      dispatch_rows-IsDispatched network_id date dates rules (some []) w before h =
          ([], evaluate-nil rules, nothing network_id (date ∷ dates) w before)
      dispatch_rows-IsDispatched network_id date dates rules (some (row ∷ rows)) w before h =
          send_triggered-IsDispatched network_id date dates rules (row ∷ rows) w before h
            (evaluate-IsOk fl repr lower hexdigest app_url db (row ∷ rows) rules u h)

      dispatch_rules-IsDispatched :
          (network_id date : Text) (dates : List Text) (rules : List AlertRule) (w : p.World)
          (before : Log fl repr)
          → all (is_readable fl repr) (exposure_of p network_id (date ∷ dates) rules w) ≡ true
          → IsDispatched network_id
              (date ∷ dates)
              rules
              (exposure_of p network_id (date ∷ dates) rules w)
              before
              (dispatch_rules fl repr lower hexdigest app_url db
                (recorded fl repr p)
                network_id
                (date ∷ dates)
                rules
                (w, before))
      unfolding dispatch_rules
      dispatch_rules-IsDispatched network_id date dates [] w before h =
          ([], evaluate-nil [], nothing network_id (date ∷ dates) w before)
      dispatch_rules-IsDispatched network_id date dates (rule ∷ rules) w before h =
          dispatch_rows-IsDispatched network_id date dates (rule ∷ rules) _ _ before h

      -- Where no user has two rows of settings, and `float` takes the kilometres of all rows that were
      -- fetched, a dispatch returns a count, also when the fetch or reports fail. It judges the active
      -- rules of the network by the rows that it fetched, none if it was given no date or no network,
      -- found no rule, or the fetch failed. It then sends one report for each merged group of the rules
      -- that triggered, also after one has failed, with the group's user, addresses, threshold and
      -- sorted hazards and with all the dates. The count is the number of reports that were accepted.
      pub dispatch_grid_alerts-IsDispatched :
          (network_id : Text) (dates : List Text) (w : p.World) (before : Log fl repr)
          → let rules = active_rules fl repr network_id db in
            all (is_readable fl repr) (exposure p network_id dates rules w) ≡ true
            → IsDispatched network_id dates rules (exposure p network_id dates rules w) before (
                dispatch_grid_alerts fl repr lower hexdigest app_url db
                  (recorded fl repr p)
                  network_id
                  dates
                  (w, before))
      unfolding dispatch_grid_alerts
      dispatch_grid_alerts-IsDispatched network_id [] w before h =
          ([], evaluate-nil _, nothing network_id [] w before)
      dispatch_grid_alerts-IsDispatched [] (date ∷ dates) w before h =
          ([], evaluate-nil _, nothing [] (date ∷ dates) w before)
      dispatch_grid_alerts-IsDispatched (c ∷ network_id) (date ∷ dates) w before h =
          dispatch_rules-IsDispatched (c ∷ network_id) date dates
            (active_rules fl repr (c ∷ network_id) db) w before h

    -- Without a date, without a network or without an active rule of the network a dispatch returns 0
    -- and calls no service.
    pub dispatch_grid_alerts_silent :
        (p : Platform fl repr) (network_id : Text) (dates : List Text) (w : p.World)
        → (dates ≡ []) ⊎ (network_id ≡ []) ⊎ (active_rules fl repr network_id db ≡ [])
        → dispatch_grid_alerts fl repr lower hexdigest app_url db p network_id dates w ≡ (ok 0, w)
    unfolding dispatch_grid_alerts dispatch_rules
    dispatch_grid_alerts_silent p network_id [] w h = refl
    dispatch_grid_alerts_silent p [] (date ∷ dates) w h = refl
    dispatch_grid_alerts_silent p (c ∷ network_id) (date ∷ dates) w (inl h) = cc
    dispatch_grid_alerts_silent p (c ∷ network_id) (date ∷ dates) w (inr (inl h)) = cc
    dispatch_grid_alerts_silent p (c ∷ network_id) (date ∷ dates) w (inr (inr h)) =
        rw (h, dispatch_rules)
