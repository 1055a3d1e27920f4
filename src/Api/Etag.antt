-- ===== src/Api/Etag.antt =====
-- vstutils/api/base.py: `get_etag_value` and `CachableHeadMixin`.
pub mod Defs
pub mod Conditional
