-- ===== src/Models/Deep.antt =====
-- vstutils/models/queryset.py: `_deep_nested_ids_without_cte`, `_get_deep_qs`, `get_parents` and
-- `get_children`, for querysets without limits. A queryset is the list of the ids that it selects. The
-- SQL of the other way, which the database runs, is a parameter.
pub mod Defs
pub mod Reach
pub mod Ends
pub mod Sets
pub mod Answers
mod Tests
