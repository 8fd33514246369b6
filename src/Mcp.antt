-- ===== src/Mcp.antt =====
-- The MCP server's protocol: mcp_server/protocol.py.
pub mod Protocol
