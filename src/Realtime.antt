-- ===== src/Realtime.antt =====
-- The Realtime gateway (src/realtime): conversation state, wire events, response life cycle.
pub mod Conversation
pub mod Events
pub mod World
pub mod Lifecycle
pub mod Observer
pub mod Audio
pub mod Session
pub mod Serializer
pub mod Transport
