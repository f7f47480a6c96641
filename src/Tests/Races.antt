-- ===== src/Tests/Races.antt =====
-- Calls that change and delete a rule at the same time.
use celine_grid.Prelude.{all, true, ℕ, text, text_eq, ◌≡◌, refl, Option, [], ◌∷◌, In}
use celine_grid.Models.{AlertRule, Db, Result, raise, missing_row, scalar_one_or_none}
use celine_grid.Dispatcher.Dispatch.{evaluate}
use celine_grid.Dispatcher.Evaluation.{IsOk}
use celine_grid.Alerts.Handlers.{own_rule, has_rule, remove_rule, create_alert_rule}
use celine_grid.Alerts.Isolation.{WellFormed, IsSafe}
use celine_grid.Alerts.Races.{
  commit_rule, finish_update, finish_delete, Open, updating, deleting, finish_open, Traffic,
  traffic, create, read_to_update, read_to_delete, proceed, Moves, stay, move,
}
use celine_grid.Alerts.RaceInvariant.{user_of_open}
use celine_grid.Alerts.RaceSafety.{Moves-IsSafe, Moves-evaluate}
use celine_grid.Values.{get}
use celine_grid.RiskSummary.{num}
use celine_grid.RiskSummary.Checked.{is_readable, in_range}
use celine_grid.Tests.Data.{wholes, no_repr, ascii_lower, rows}
use celine_grid.Tests.Alerts.{ada, stored, stored-WellFormed, to_warning, wind_rule}

-- Two calls of Ada have found her rule.
abbrev ada_found : Result (Option AlertRule)
ada_found = scalar_one_or_none (own_rule 1 (text "ada") stored.rules)

abbrev updates : Open
updates = updating to_warning (text "ada") ada_found

abbrev deletes : Open
deletes = deleting (text "ada") ada_found

-- The deletion has gone on, and the update finds no row.
abbrev raced : Traffic
raced = traffic (finish_open 2 20 deletes stored) (1 ∷ []) (updates ∷ [])

update_lost : (finish_update ada_found to_warning 21 raced.db).0 ≡ raise missing_row
unfolding finish_update finish_delete commit_rule finish_open own_rule has_rule remove_rule
    scalar_one_or_none text_eq
update_lost = refl

raced-Moves : Moves (traffic stored (1 ∷ []) []) raced
raced-Moves =
    move
      (move (move stay (read_to_update 1 to_warning (text "ada"))) (read_to_delete 1 (text "ada")))
      (proceed [] deletes (updates ∷ []) 2 20)

Moves-IsSafe_example :
    WellFormed raced.db
    × ((call : Open) (id now : ℕ)
        → In call raced.open_calls
        → IsSafe (user_of_open call) raced.db (finish_open id now call raced.db))
Moves-IsSafe_example = Moves-IsSafe stored (1 ∷ []) raced stored-WellFormed (refl, tt) raced-Moves

abbrev unstored : Db
unstored = record { rules = []; settings = [] }

-- From empty tables Ada creates her rule; an update and a deletion of it then find it, and the deletion
-- goes on.
abbrev born : Db
born = (create_alert_rule 1 10 wind_rule ada unstored).1

abbrev born_found : Result (Option AlertRule)
born_found = scalar_one_or_none (own_rule 1 (text "ada") born.rules)

abbrev overtaken : Traffic
overtaken =
    traffic (finish_open 2 20 (deleting (text "ada") born_found) born) (1 ∷ [])
      (updating to_warning (text "ada") born_found ∷ [])

overtaken-Moves : Moves (traffic unstored [] []) overtaken
overtaken-Moves =
    move
      (move
        (move (move stay (create 1 10 wind_rule ada refl))
          (read_to_update 1 to_warning (text "ada")))
        (read_to_delete 1 (text "ada")))
      (proceed [] (deleting (text "ada") born_found)
        (updating to_warning (text "ada") born_found ∷ []) 2 20)

rows-readable : all (is_readable wholes no_repr) rows ≡ true
unfolding is_readable in_range num get text_eq
rows-readable = refl

Moves-evaluate_example :
    IsOk (evaluate wholes no_repr ascii_lower (λ s. s) (text "app") overtaken.db rows stored.rules)
Moves-evaluate_example =
    Moves-evaluate wholes no_repr ascii_lower (λ s. s) (text "app") overtaken rows stored.rules
      overtaken-Moves rows-readable
