-- ===== src/Avp.antt =====
-- l2tp/avp.go: the attribute value pairs of a control message, from the bytes of a header and the
-- values that a payload carries to the parser of a whole buffer.
pub mod Types
pub mod MsgTypes
pub mod Info
pub mod Header
pub mod Payload
pub mod Encode
pub mod Parse
pub mod Find
pub mod Write
pub mod HeaderFields
pub mod RoundTrip
pub mod ParseSteps
pub mod ParseRoundTrip
pub mod ParseSound
pub mod Built
pub mod ParseFaults
