-- ===== src/Fields/Crontab.antt =====
-- vstutils/api/fields.py: `CrontabField`.
pub mod Defs
pub mod Numbers
pub mod Grammar
pub mod Round
