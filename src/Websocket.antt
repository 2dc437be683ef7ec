-- ===== src/Websocket.antt =====
-- internal/websocket
pub mod WritePump
pub mod Sets
pub mod Hub
pub mod Client
pub mod Sessions
