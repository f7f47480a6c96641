-- ===== src/Alerts/RaceSafety.antt =====
-- Whatever the order of the steps of overlapping calls of the alerts API, no call touches the rows of
-- another user.
use celine_grid.Prelude.{all, true, ◌≡◌, ℕ, Text, text_eq, List, [], ◌++◌, In}
use celine_grid.Values.{Floats, Value, Row}
use celine_grid.Models.{AlertRule, Db}
use celine_grid.RiskSummary.Checked.{is_readable}
use celine_grid.Dispatcher.Dispatch.{evaluate}
use celine_grid.Dispatcher.Evaluation.{IsOk, evaluate-IsOk}
use celine_grid.Access.{resolve_dso_network}
use celine_grid.Alerts.Handlers.{create_alert_rule}
use celine_grid.Alerts.Isolation.{WellFormed, IsSafe, create_alert_rule-IsSafe}
use celine_grid.Alerts.Interleavings.{Remembers-scalar}
use celine_grid.Alerts.Endings.{All-without, All-In}
use celine_grid.Alerts.Races.{
  Open, finish_open, Traffic, traffic, Move, read_to_get, read_to_put, read_to_update,
  read_to_delete, create, proceed, Moves, stay, move,
}
use celine_grid.Alerts.RaceSteps.{AreUsed}
use celine_grid.Alerts.RaceInvariant.{
  user_of_open, IsSound, finish_open-IsStep, IsTame-IsOpen, All-map, own_rule-Recalls,
  create_on-IsCreated, IsCreated-IsOpen,
}

Move-IsSound : {s t : Traffic} → Move s t → IsSound s → IsSound t
unfolding create_alert_rule
Move-IsSound (read_to_get {db} user) (w, h, calls) =
    (w, h, (Remembers-scalar user db.settings w.2, calls))
Move-IsSound (read_to_put {db} body user) (w, h, calls) =
    (w, h, (Remembers-scalar user db.settings w.2, calls))
Move-IsSound (read_to_update {db} {used} id body user) (w, h, calls) =
    (w, h, (own_rule-Recalls id user used db w h, calls))
Move-IsSound (read_to_delete {db} {used} id user) (w, h, calls) =
    (w, h, (own_rule-Recalls id user used db w h, calls))
Move-IsSound (create {db} {used} {calls} id now body user new) (w, h, opened) =
    let made = create_on-IsCreated (resolve_dso_network user) id now body user used db new h in
    (
      (create_alert_rule-IsSafe id now body user db w).0,
      made.2,
      All-map _ _ calls (λ c. IsCreated-IsOpen id used db _ c made) opened,
    )
Move-IsSound (proceed {db} {used} newer call older id now) (w, h, calls) =
    let split = All-without _ newer call older calls in
    let (safe, tame) = finish_open-IsStep id now call used db w split.0 in
    (safe.0, tame.2 h, All-map _ _ (newer ++ older) (λ c. IsTame-IsOpen used db _ c tame) split.1)

Moves-IsSound : {s t : Traffic} → Moves s t → IsSound s → IsSound t
Moves-IsSound stay h = h
Moves-IsSound (move r step) h = Move-IsSound step (Moves-IsSound r h)

-- From well-formed tables whose rules have used ids, and without open calls: in whatever order calls of
-- the alerts API read, go on and create rules with unused ids, the tables stay well-formed, and an open
-- call that goes on leaves the rules and the settings of all other users as they are.
pub Moves-IsSafe :
    (db : Db) (used : List ℕ) (t : Traffic)
    → WellFormed db
    → AreUsed used db.rules
    → Moves (traffic db used []) t
    → WellFormed t.db
      × ((call : Open) (id now : ℕ)
          → In call t.open_calls
          → IsSafe (user_of_open call) t.db (finish_open id now call t.db))
Moves-IsSafe db used t w h r =
    let (well, _, calls) = Moves-IsSound r (w, h, tt) in
    (
      well,
      λ call id now m.
          (finish_open-IsStep id now call t.used t.db well (All-In _ call t.open_calls calls m)).0,
    )

module _ (fl : Floats) (repr : Value fl.F → Text) (lower hexdigest : Text → Text)
    (app_url : Text) where
  -- From empty tables, at any moment between the steps of overlapping calls of the alerts API, a
  -- dispatch evaluates any rules without an exception, on any rows whose kilometres `float` takes.
  pub Moves-evaluate :
      (t : Traffic) (rows : List (Row fl.F)) (rules : List AlertRule)
      → Moves (traffic (record { rules = []; settings = [] }) [] []) t
      → all (is_readable fl repr) rows ≡ true
      → IsOk (evaluate fl repr lower hexdigest app_url t.db rows rules)
  Moves-evaluate t rows rules r h =
      let (well, _, _) = Moves-IsSound r ((tt, tt, tt), tt, tt) in
      evaluate-IsOk fl repr lower hexdigest app_url _ rows rules well.2 h
