-- ===== src/Tests.antt =====
-- Runs of the model at concrete data, and each theorem at an input that meets its hypotheses.
mod Data
mod Recipients
mod RiskSummary
mod User
mod Dispatcher
mod Access
mod Alerts
mod Overlap
mod Races
mod Gate
mod Listener
mod Grid
mod Startup
mod Configuration
mod Application
mod Migrations
