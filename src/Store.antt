-- ===== src/Store.antt =====
-- The database (`internal/store`, `internal/store/migrations`): its tables as one state, and the
-- queries as functions on it. A statement of Postgres that is not modelled as failing succeeds; the
-- row locks of `FOR UPDATE` are the reason why a transaction is one function on the state.
pub mod Tx
pub mod Rows
pub mod Planets
pub mod Queue
pub mod Counts
pub mod Fleets
pub mod Messages
pub mod Colonies
pub mod Users
pub mod Alliances
