-- ===== src/Subscriptions.antt =====
-- sdk/typescript/src/subscriptions.ts: what a client holds for each subscription of the server, and
-- what the deltas of the server do to it.
pub mod Views
pub mod Projection
pub mod Tracker
pub mod Reconnect
pub mod Batching
pub mod Flush
pub mod Order
pub mod Initial
