-- ===== src/Msg.antt =====
-- l2tp/msg.go: control messages, their validation against the specification of their type, their
-- bytes, and the parser of a received frame.
pub mod Spec
pub mod Validate
pub mod ValidateSpec
pub mod Message
pub mod Parse
pub mod Build
pub mod Steps
pub mod RoundTrip
pub mod Built
pub mod Sendable
