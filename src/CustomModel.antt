-- ===== src/CustomModel.antt =====
-- vstutils/models/custom_model.py: querysets over lists of dicts.
pub mod Cells
pub mod Sorting
pub mod Check
pub mod Order
pub mod Select
mod Tests
