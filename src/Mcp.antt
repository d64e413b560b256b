-- ===== src/Mcp.antt =====
-- browserd/mcp: the MCP server and its transports.
pub mod Server
pub mod Http
pub mod Line
pub mod Ipc
pub mod Tools
