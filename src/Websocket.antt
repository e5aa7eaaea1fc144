-- ===== src/Websocket.antt =====
-- backend/src/websocket: what a client is told over its socket.
pub mod Progress
pub mod Chat
pub mod Gateway
