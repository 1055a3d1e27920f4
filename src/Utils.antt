-- ===== src/Utils.antt =====
-- vstutils/utils.py: the ciphers, the contexts that suppress exceptions, entity tags and the handlers
-- of backends named in the settings.
pub mod Cipher
pub mod Pickle
pub mod Raises
pub mod Headers
pub mod Handlers
pub mod Executor
pub mod Urls
pub mod Tests
