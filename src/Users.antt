-- ===== src/Users.antt =====
-- vstutils/api/permissions.py, vstutils/api/auth.py, vstutils/api/models.py and vstutils/auth.py: who may
-- do what with the accounts, passwords, the second factor, and cached users.
pub mod Account
pub mod Permissions
pub mod Views
pub mod Safety
pub mod Rows
pub mod Password
pub mod TwoFactor
pub mod Backends
pub mod Cached
mod Tests
