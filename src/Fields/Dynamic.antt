-- ===== src/Fields/Dynamic.antt =====
-- vstutils/api/fields.py: `DynamicJsonTypeField` and `DependEnumField`, whose type the value of another field tells,
-- on `VSTCharField`.
pub mod Defs
pub mod Round
mod Tests
