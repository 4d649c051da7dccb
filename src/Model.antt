-- ===== src/Model.antt =====
-- core/model: the domain model.
pub mod Types
pub mod Prefs
pub mod Address
pub mod Figures
pub mod Labels
