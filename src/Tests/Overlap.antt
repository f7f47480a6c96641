-- ===== src/Tests/Overlap.antt =====
-- Two calls of the settings that overlap.
use celine_grid.Prelude.{ℕ, text, text_eq, ◌≡◌, refl, Option, [], ◌∷◌, In}
use celine_grid.Models.{
  NotificationSettings, Result, raise, integrity_error, scalar_one_or_none, settings_of,
}
use celine_grid.Alerts.Settings.{has_settings, insert_checked, insert_settings, get_found}
use celine_grid.Alerts.Isolation.{WellFormed}
use celine_grid.Alerts.Overlap.{
  Pending, getting, putting, user_of, commit_found, finish, Serving, serving, Reach, here, next,
  read_to_get, read_to_put, go_on,
}
use celine_grid.Alerts.Interleavings.{IsEnding}
use celine_grid.Alerts.Endings.{Reach-IsEnding}
use celine_grid.Tests.Alerts.{night, stored, stored-WellFormed}

-- Two calls of Bob have found no settings.
abbrev bob_found : Result (Option NotificationSettings)
bob_found = scalar_one_or_none (settings_of (text "bob") stored.settings)

abbrev reading : Pending
reading = getting (text "bob") bob_found

abbrev writing : Pending
writing = putting night (text "bob") bob_found

-- The first has gone on, and the second is refused.
abbrev raced : Serving
raced = serving (finish 2 20 reading stored).1 (writing ∷ [])

second_refused : (finish 3 21 writing raced.db).0 ≡ raise integrity_error
unfolding finish get_found commit_found insert_settings insert_checked settings_of has_settings
    scalar_one_or_none text_eq
second_refused = refl

raced-Reach : Reach (serving stored []) raced
raced-Reach =
    next (next (next here (read_to_put night (text "bob"))) (read_to_get (text "bob")))
      (go_on [] reading (writing ∷ []) 2 20)

Reach-IsEnding_example :
    WellFormed raced.db
    × ((call : Pending) (id now : ℕ)
        → In call raced.open_calls
        → IsEnding id (user_of call) raced.db (finish id now call raced.db))
Reach-IsEnding_example = Reach-IsEnding stored raced stored-WellFormed raced-Reach
