-- ===== src/Mcp/Tools.antt =====
-- browserd/mcp/tools: the tools that the server offers.
pub mod Cookies
pub mod Calls
pub mod Handlers
pub mod Interactions
pub mod Schemas
pub mod Registry
pub mod Required
mod Tests
