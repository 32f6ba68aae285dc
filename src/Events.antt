-- ===== src/Events.antt =====
-- packages/events/src: envelopes, the replay of events, the local transport and the delivery rules.
pub mod Envelope
pub mod Replay
mod Tests
