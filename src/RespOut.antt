-- ===== src/RespOut.antt =====
-- internal/translate/respout.go: the state machine of the Responses protocol.
pub mod Machine
pub mod Steps
pub mod Deltas
pub mod Numbers
