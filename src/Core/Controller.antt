-- ===== src/Core/Controller.antt =====
-- browserd/core/browser_controller.cc: `BrowserController`.
pub mod State
pub mod Outcomes
pub mod Tabs
pub mod Pages
pub mod Cookies
pub mod Instrumentation
pub mod Histories
pub mod Calls
mod Targets
pub mod Waits
mod Tests
