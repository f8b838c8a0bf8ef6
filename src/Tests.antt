-- ===== src/Tests.antt =====
-- Concrete inputs: tests by evaluation, and instances of the theorems.
mod Data
mod Accounts
mod Sessions
mod Jobs
mod Validation
mod Signing
mod Web
mod Schedules
mod Mailing
mod Commands
mod Starting
mod Settings
