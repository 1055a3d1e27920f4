-- ===== src/Api.antt =====
-- vstutils/api/base.py, vstutils/api/actions.py and vstutils/api/decorators.py: entity tags, actions and nested
-- views.
pub mod Run
pub mod Etag
pub mod Action
pub mod Nested
mod Tests
