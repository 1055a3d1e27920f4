-- ===== src/Webpush.antt =====
-- vstutils/webpush: the subscriptions of devices and users, and sending to them.
pub mod Tables
pub mod Settings
pub mod Moved
pub mod Valid
pub mod Send
mod Tests
