-- ===== src/Oauth.antt =====
-- products/mcp_auth: the authorization server in front of the MCP tools. Instants and lifetimes are
-- numbers of seconds.
pub mod Documents
pub mod Store
pub mod Config
pub mod Requests
pub mod Server
mod Tests
