-- ===== src/Bulk.antt =====
-- vstutils/api/endpoint.py: the bulk endpoint.
pub mod Paths
pub mod Value
pub mod Template
pub mod Operation
pub mod Endpoint
pub mod Tests
