-- ===== src/Websocket.antt =====
-- The WebSocket side of the backend (backend/websocket/*.py).
pub mod Connections
pub mod Video
pub mod Offline
mod Tests
