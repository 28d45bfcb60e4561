-- ===== src/Server.antt =====
-- internal/server: how a request is answered, between the HTTP library and the translation.
pub mod Writer
pub mod Serve
pub mod Started
pub mod Log
pub mod Response
pub mod Buffered
pub mod OneResponse
pub mod Chat
pub mod Anthropic
pub mod Body
pub mod Handlers
pub mod Responds
pub mod Answered
