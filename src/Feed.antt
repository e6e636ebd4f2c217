-- ===== src/Feed.antt =====
-- The WebSocket feed, apps/wsfeed/main.go.
pub mod Client
pub mod Hub
pub mod Session
pub mod Consume
pub mod Main
