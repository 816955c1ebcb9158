-- ===== src/Tests.antt =====
-- Concrete inputs for the theorems, and runs of the commands on them.
pub mod Exact
pub mod Formulas
pub mod Battles
pub mod Sample
pub mod Commands
pub mod Orders
pub mod Batches
pub mod Harbor
pub mod Departures
pub mod Voyages
pub mod Lives
pub mod Newcomers
pub mod Letters
pub mod Guilds
pub mod Charts
