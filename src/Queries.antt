-- ===== src/Queries.antt =====
-- core/ec/queries.cpp: requests built from, and replies read into, the domain model.
pub mod Requests
pub mod ReadPrefs
pub mod WritePrefs
pub mod ReadBack
pub mod Reads
pub mod Fetches
pub mod Sources
