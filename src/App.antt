-- ===== src/App.antt =====
-- app/: the parts of the user interface that decide what is listed and what is kept.
pub mod SearchFilter
pub mod SearchPanel
pub mod MainWindow
pub mod System
pub mod Widgets
pub mod PreferencesPanel
pub mod Tables
pub mod Transfers
pub mod SpeedGraph
pub mod SavedSearches
