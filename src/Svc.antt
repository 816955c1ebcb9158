-- ===== src/Svc.antt =====
-- The services (`internal/svc`): one module for each that is modelled.
pub mod Resources
pub mod Orders
pub mod Build
pub mod Shipyard
pub mod Research
pub mod Fleet
pub mod Messages
pub mod Universe
pub mod Alliance
pub mod Planet
pub mod Galaxy
