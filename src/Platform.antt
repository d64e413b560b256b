-- ===== src/Platform.antt =====
-- Interfaces of the code that browserd calls and that is not in the repository.
pub mod Json
pub mod Strings
pub mod CommandLines
pub mod Contexts
pub mod Urls
pub mod Cookies
pub mod Samples
