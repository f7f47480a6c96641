-- ===== src/Dispatcher/Sending.antt =====
-- What a dispatch sends.
use mathlib.Core.List.{append-nil, append_assoc}
use celine_grid.Prelude.{
  all, true, ℕ, ◌+◌, Text, text_eq, if◌then◌else◌, Bool, List, [], ◌∷◌, ◌++◌, sym, ◌≡◌, refl, ◌∙◌,
  ap, arith, sorted, text_lt, some,
}
use celine_grid.Values.{Floats, Value, Row}
use celine_grid.Models.{Db, Result, ok}
use celine_grid.RiskSummary.Days.{build_days}
use celine_grid.RiskSummary.Checked.{is_readable, checked_build_days-ok}
use celine_grid.Dispatcher.{Group, top_lines}
use celine_grid.Dispatcher.Dispatch.{Report, Platform, build_report_payload, send_reports}

module _ (fl : Floats) (repr : Value fl.F → Text) where
  -- The same services, with a log of the reports and of what became of each.
  abbrev pub recorded : Platform fl repr → Platform fl repr
  recorded p = record {
    World = p.World × List (Report fl repr × Bool);
    now = λ w. p.now w.0;
    fetch_values =
        λ n f ds l k w. let (rows, w') = p.fetch_values n f ds l k w.0 in (rows, (w', w.1));
    ingest_event = λ r w.
        let (accepted, w') = p.ingest_event r w.0 in (accepted, (w', w.1 ++ ((r, accepted) ∷ [])));
  }

  abbrev pub accepted_count : List (Report fl repr × Bool) → ℕ
  accepted_count [] = 0
  accepted_count ((r, accepted) ∷ log) = (if accepted then 1 else 0) + accepted_count log

  -- The report of a group.
  abbrev pub Describes : Text → List Text → Group → Report fl repr → Type 0
  Describes network_id dates g r =
      (r.user_id ≡ g.user_id)
      × (r.email_recipients ≡ g.recipients)
      × (r.threshold ≡ g.threshold)
      × (r.risk_types ≡ sorted text_lt g.vectors)
      × (r.network_id ≡ network_id)
      × (r.dates ≡ dates)

  -- One report for each group, in order.
  abbrev pub OneEach : Text → List Text → List Group → List (Report fl repr × Bool) → Type 0
  OneEach network_id dates [] [] = Unit
  OneEach network_id dates (g ∷ gs) ((r, _) ∷ log) =
      Describes network_id dates g r × OneEach network_id dates gs log
  OneEach network_id dates _ _ = ⊥

  abbrev pub Log : Type 0
  Log = List (Report fl repr × Bool)

  -- What a run did that began with the log `before`: it returned, it logged one report for each
  -- group, and it added the accepted ones to the count.
  abbrev pub IsSent :
      {W : Type 0} → Text → List Text → ℕ → List Group → Log → Result ℕ × (W × Log) → Type 0
  IsSent network_id dates sent gs before (result, (w, after)) =
      (log : Log) × (after ≡ before ++ log)
      × OneEach network_id dates gs log
      × (result ≡ ok (sent + accepted_count log))

  IsSent-one :
      {W : Type 0} (network_id date : Text) (dates : List Text) (sent : ℕ) (g : Group)
      (gs : List Group) (report : Report fl repr) (accepted : Bool) (before : Log)
      (out : Result ℕ × (W × Log))
      → Describes network_id (date ∷ dates) g report
      → IsSent network_id
          (date ∷ dates)
          (if accepted then sent + 1 else sent)
          gs
          (before ++ ((report, accepted) ∷ []))
          out
      → IsSent network_id (date ∷ dates) sent (g ∷ gs) before out
  IsSent-one network_id date dates sent g gs report accepted before out d (log, e, each, count) = (
    (report, accepted) ∷ log,
    e ∙ append_assoc before _ log,
    (d, each),
    count ∙ ap ok (ground arith),
  )

  module _ (lower hexdigest : Text → Text) (app_url : Text) (db : Db) (p : Platform fl repr) where
    abbrev report_of : Text → List (Row fl.F) → Text → List Text → Group → p.World → Report fl repr
    report_of network_id rows date dates g w = record {
      user_id = g.user_id;
      period = date;
      dates = date ∷ dates;
      network_id = network_id;
      threshold = g.threshold;
      risk_types = sorted text_lt g.vectors;
      generated_at = p.now w;
      app_url = app_url;
      email_recipients = g.recipients;
      days =
          build_days fl repr rows (date ∷ dates) (sorted text_lt g.vectors) (some g.threshold)
            top_lines;
    }

    payload-ok :
        (network_id : Text) (rows : List (Row fl.F)) (date : Text) (dates : List Text) (g : Group)
        (w : p.World)
        → all (is_readable fl repr) rows ≡ true
        → build_report_payload fl repr app_url (p.now w) network_id g rows (date ∷ dates)
          ≡ ok (report_of network_id rows date dates g w)
    unfolding build_report_payload
    payload-ok network_id rows date dates g w h =
        rw
          (checked_build_days-ok fl repr rows (date ∷ dates) (sorted text_lt g.vectors)
            (some g.threshold) top_lines h)
          refl

    pub send_reports-IsSent :
        (network_id : Text) (rows : List (Row fl.F)) (date : Text) (dates : List Text) (sent : ℕ)
        (gs : List Group) (w : p.World) (before : Log)
        → all (is_readable fl repr) rows ≡ true
        → IsSent network_id (date ∷ dates) sent gs before (
            send_reports fl repr lower hexdigest app_url db
              (recorded p)
              network_id
              rows
              (date ∷ dates)
              sent
              gs
              (w, before))
    unfolding send_reports
    send_reports-IsSent network_id rows date dates sent [] w before h =
        ([], sym (append-nil before), tt, ap ok (omega arith))
    send_reports-IsSent network_id rows date dates sent (g ∷ gs) w before h =
        let report = report_of network_id rows date dates g w in
        let (accepted, w') = p.ingest_event report w in
        rw (payload-ok network_id rows date dates g w h, send_reports)
          (IsSent-one network_id date dates sent g gs report accepted before
            (send_reports fl repr lower hexdigest app_url db (recorded p) network_id rows
              (date ∷ dates) (if accepted then sent + 1 else sent) gs
              (w', before ++ ((report, accepted) ∷ [])))
            (refl, refl, refl, refl, refl, refl)
            (send_reports-IsSent network_id rows date dates (if accepted then sent + 1 else sent) gs
              w' (before ++ ((report, accepted) ∷ [])) h))
