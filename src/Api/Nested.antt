-- ===== src/Api/Nested.antt =====
-- vstutils/api/decorators.py: the views that `nested_view` makes.
pub mod Names
pub mod Defs
pub mod Links
pub mod Naming
pub mod Append
pub mod Destroy
mod Tests
