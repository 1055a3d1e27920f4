-- ===== src/Lock.antt =====
-- vstutils/utils.py: the locks over a shared cache.
pub mod Shared
pub mod Exchange
pub mod Acquire
pub mod Race
pub mod Decorator
pub mod Tests
