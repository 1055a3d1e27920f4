-- ===== src/Models.antt =====
-- vstutils/models: querysets.
pub mod Deep
