-- ===== src/Services.antt =====
-- app/services, app/parsing.py and app/utils.py: the items of a request body before they are stored.
pub mod Dates
pub mod Values
pub mod Canonical
pub mod Importance
pub mod Minutes
pub mod Segments
pub mod News
