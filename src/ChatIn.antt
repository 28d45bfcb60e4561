-- ===== src/ChatIn.antt =====
-- internal/translate/chatin.go: the normalization of a Chat request.
pub mod Warnings
pub mod Content
pub mod User
pub mod Assistant
pub mod Tools
pub mod Fields
pub mod Convert
pub mod Reported
pub mod Calls
pub mod Sent
pub mod Blocks
pub mod Kept
pub mod Parallel
pub mod DataUri
pub mod Family
pub mod Families
