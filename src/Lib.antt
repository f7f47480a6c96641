-- ===== src/Lib.antt =====
-- The verification library of celine-grid, the service behind the operators' console of the
-- distribution grid.
--
-- The program. A request passes the gate (src/celine/grid/security/middleware.py), then the
-- dependencies of its route (src/celine/grid/api/deps.py), which read the token and ask the access
-- policy (src/celine/grid/security/policy.py, policies/grid.rego) whether the caller is admitted.
-- The routes of the alerts API (src/celine/grid/api/alerts.py) keep the alert rules and the
-- notification settings of the callers in two tables (src/celine/grid/db/models.py), which come
-- about by the migrations in alembic/versions. The routes of the proxy
-- (src/celine/grid/api/grid.py) pass requests on to the Digital Twin. When a pipeline has run, its
-- listener (src/celine/grid/services/pipeline_listener.py) finds the dates and the networks, and
-- for each network the alert dispatcher (src/celine/grid/services/alert_dispatcher.py) judges the
-- active rules of a network by the rows of the Digital Twin, with the summaries of
-- src/celine/grid/services/risk_summary.py, and sends one report for each list of recipients, which
-- src/celine/grid/services/notification_recipients.py reads from free texts.
--
-- The files. A function keeps its name, less a leading underscore.
--   Prelude       shared helpers: texts, sorting, grouping, permutations, sums over lists, integers.
--   Values        JSON values and rows; floats as a record of the operations that are used.
--   Models        the two tables, and results that are values or exceptions.
--   Recipients    notification_recipients.py: parse_recipients, synthetic_email_user_id.
--   RiskSummary   risk_summary.py: triggered_vectors; Summarise: summarise; Days: build_days;
--                 Checked: the same with the exception of `_num`.
--   Dispatcher    alert_dispatcher.py: merge_by_recipients; Dispatch: dispatch_grid_alerts.
--   Dates         Python's date, as the listener uses it: the next day, and the ISO format.
--   Listener      pipeline_listener.py: _horizon_dates, _networks_with_active_rules, on_pipeline_run.
--   Identity      policy.py: dso_networks, _dso_network, _make_policy_input.
--   Policy        grid.rego as grid_rego, and GridAccessPolicy with its three decisions; Loading: its
--                 constructor.
--   Access        middleware.py and deps.py: extract_token, resolve_dso_network, require_*.
--   Alerts        schemas.py: the bodies and their checks; Handlers and Settings: the routes of
--                 alerts.py; Runs: any calls one after the other; Gate: a request through the
--                 gate and the dependencies of its route; Overlap: calls of the settings as two
--                 steps each, between which others may commit; Races: calls of all routes so.
--   Grid          grid.py: requests, calls and _to_feature_collection; Routes: the routes as one
--                 function handle of the request, and serve, which adds the gate and the caller.
--   User          user.py: _primary_subtag, _from_accept_language, resolve_locale, me.
--   Startup       posture.py: build_guard, enforce_posture; main.py: lifespan as start and stop.
--   Application   main.py: create_app, with the endpoints of routes.py and the three routers.
--   Configuration settings.py, and the clients made from it in deps.py and pipeline_listener.py.
--   Migrations    001_initial_schema.py, 002_risk_types_array.py, 003_fix_migrated_network_id.py.
--   Tests         runs at concrete data, and each result at an input that meets its hypotheses.
-- The other modules below these hold proofs, and are named for what they prove.
--
-- Parameters. A text is a list of code points. `lower` is str.lower, `hexdigest` the hexadecimal
-- SHA-256 of a text, `repr` is str of a value that is no text, and `Floats` has Python's floats
-- with no laws: a theorem that needs a law takes it as a hypothesis. The Digital Twin, the nudging
-- service and the clock are a `Platform` over a world of its own; a failing call is a value of it.
-- A dispatch as the listener calls it is a function over such a world, and so is a call of the
-- client of the Digital Twin as the proxy makes it (`Client`), with a DTApiError or another
-- exception as a value. `loads` is json.loads, `datetime_fromisoformat` the day of what
-- datetime.fromisoformat reads, and `is_digit` and `is_alpha` the classes of decimal digits and of
-- letters. The startup runs over a `PostureGuard`, the SDK's guard, and `Services`, and
-- `IsHardened` says of the guard what docs/specifications/operability.md says of it outside
-- development. A `Source` is pydantic's reading of a field of the settings. The token check and the
-- policy engine are functions; `grid_rego` is the engine that runs the bundle. In the bundle, a
-- rule that gives two values is an evaluation that raises.
--
-- State. A database is a value that an operation takes and returns; a query that raises for several
-- rows is a `Result`. Calls overlap in Alerts/Overlap and Alerts/Races: there a step reads or
-- commits, a state has the open calls, and a new rule has an id that no rule has had, as a UUID. A
-- commit and the refresh after it are one step. Every loop is recursion on a list, so no fuel is
-- needed.
--
-- Bounds. The integers of a document have no bound, and the float of one may not exist: then `_num`
-- raises, and RiskSummary/Checked has the summaries with this exception, as the dispatcher calls
-- them. The widths of the text columns are not checked: texts are taken to be within them.
--
-- Not modelled: logging, the session pool, the environment of the migrations, the configuration of
-- the broker, the SDK clients and FastAPI's router, which is a parameter of the application. Of a
-- migration the indexes are left out, since they change no row, and of the startup its
-- cancellation.
pub mod Prelude
pub mod Values
pub mod Dates
pub mod Recipients
pub mod RiskSummary
pub mod Models
pub mod Dispatcher
pub mod Identity
pub mod Listener
pub mod Grid
pub mod Startup
pub mod Configuration
pub mod Migrations
pub mod Policy
pub mod Access
pub mod Alerts
pub mod Application
pub mod User
pub mod Tests
