-- ===== src/Tests/Gate.antt =====
-- Requests to the alerts API.
use celine_grid.Prelude.{text, text_eq, false, some}
use celine_grid.Policy.{grid_rego}
use celine_grid.Alerts.Runs.{create_rule}
use celine_grid.Alerts.Gate.{serve_call}
use celine_grid.Alerts.Guarded.{IsServed, caller_of, serve_call-IsServed}
use celine_grid.Tests.Data.{ascii_lower}
use celine_grid.Tests.Access.{request}
use celine_grid.Tests.Grid.{from_token}
use celine_grid.Tests.Alerts.{stored, stored-WellFormed, wind_rule}

serve_call-IsServed_example :
    IsServed
      (caller_of ascii_lower (text "x-auth") from_token request)
      (create_rule 2 20 wind_rule)
      stored
      (serve_call ascii_lower
        (text "x-auth")
        from_token
        false
        (some grid_rego)
        request
        (create_rule 2 20 wind_rule)
        stored)
serve_call-IsServed_example =
    serve_call-IsServed ascii_lower (text "x-auth") from_token false request
      (create_rule 2 20 wind_rule) stored stored-WellFormed
