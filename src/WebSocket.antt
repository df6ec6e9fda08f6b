-- ===== src/WebSocket.antt =====
-- src/ws_client.c, a client with a background thread, and src/websocket.c, its subscriptions.
pub mod Client
pub mod Subscriptions
