-- ===== src/Filters.antt =====
-- vstutils/api/filters.py: the filters by key, by name and by the object that a row refers to.
pub mod Defs
pub mod Negated
mod Tests
