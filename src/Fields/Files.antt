-- ===== src/Fields/Files.antt =====
-- vstutils/api/fields.py: `NamedBinaryFileInJsonField` and its field of several files.
pub mod Defs
pub mod Links
pub mod Bounds
mod Tests
