-- ===== src/Core/Interactions.antt =====
-- browserd/core/browser_interactions.cc: the keys, the wheel and the mouse, in the tab that is acted on.
pub mod Elements
pub mod Keys
pub mod Mouse
pub mod Press
pub mod Typing
pub mod Wheel
