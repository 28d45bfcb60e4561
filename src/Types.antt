-- ===== src/Types.antt =====
-- internal/types: the wire types. `types/anthropic.go` is Inbound and Event, `types/cmdc.go` is
-- Cmdc. A Go pointer to a struct is an `Option`; a `json.RawMessage` is its JSON text, a `String`.
pub mod Inbound
pub mod Cmdc
pub mod Chat
pub mod Responses
pub mod Event
