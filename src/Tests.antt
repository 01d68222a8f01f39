-- ===== src/Tests.antt =====
-- Sample data, tests by evaluation, and the theorems at concrete inputs.
mod Samples
mod Atomic
mod Cached
mod Queries
mod Commands
mod Staged
mod CommandDb
mod Sources
mod Server
mod Types
mod Options
