-- ===== src/Examples.antt =====
-- Runs on concrete inputs: the hypotheses of the theorems hold there.
mod Histories
mod Streams
mod Tools
mod Chats
mod Envelopes
mod Statuses
mod Servers
mod ChatRequests
mod Handled
mod Settings
mod Responses
