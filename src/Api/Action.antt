-- ===== src/Api/Action.antt =====
-- vstutils/api/actions.py: `Action` and `SimpleAction`.
pub mod Defs
pub mod Simple
pub mod Effects
