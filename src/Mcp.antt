-- ===== src/Mcp.antt =====
-- The MCP resource server (mcp_server): the validation of bearer tokens, the identity of a caller
-- and the gates in front of the tools. An instant is a number of seconds.
pub mod Token
pub mod Auth
pub mod Caller
pub mod Registry
pub mod Server
mod Tests
