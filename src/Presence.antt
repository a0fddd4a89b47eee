-- ===== src/Presence.antt =====
-- sdk/typescript/src/presence.ts: the presence of users and the shared state of a namespace.
pub mod Users
pub mod UsersLaws
pub mod Removal
pub mod Map
pub mod Broadcast
pub mod BroadcastLaws
pub mod BroadcastViews
