-- ===== src/Server.antt =====
-- The routes of main.go: what a request meets before its handler.
pub mod Requests
pub mod State
pub mod Handle
pub mod Headers
pub mod Serve
pub mod Guards
mod Tests
