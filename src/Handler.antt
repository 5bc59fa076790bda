-- ===== src/Handler.antt =====
-- internal/handler: the handlers that the servers call.
pub mod Product
pub mod Kafka
pub mod Rest
pub mod Servers
pub mod Remote
