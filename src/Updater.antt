-- ===== src/Updater.antt =====
-- internal/application/updater: from a push event to pull requests. `Types` has the records of
-- service.go, `Branch` the branch names, `Targets` the targets of one repository, `Plan` the plan,
-- `Body` and `Messages` the texts of a pull request, `Ports` what the service calls, `Apply` the calls
-- that carry out the plan of one repository, and `Handle` the handling of an event.
pub mod Types
pub mod Branch
pub mod Targets
pub mod Plan
pub mod Body
pub mod Messages
pub mod Ports
pub mod Apply
pub mod Handle
