-- ===== src/Core.antt =====
-- browserd/core: what the controller does with the runtime and the pages.
pub mod Result
pub mod Runtime
pub mod Request
pub mod Evaluation
pub mod Screenshot
pub mod Navigation
pub mod Controller
pub mod Interactions
