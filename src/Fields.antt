-- ===== src/Fields.antt =====
-- vstutils/api/fields.py: serializer fields with logic of their own.
pub mod Crontab
pub mod Dynamic
pub mod Files
mod Tests
