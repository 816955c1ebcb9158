-- ===== src/Game.antt =====
-- The pure formula library (`internal/game`).
pub mod Techs
pub mod Buildings
pub mod Ships
pub mod Defenses
pub mod Formulas
pub mod Fleet
pub mod Colonization
pub mod TechTree
pub mod Production
pub mod Combat
