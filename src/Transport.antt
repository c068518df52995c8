-- ===== src/Transport.antt =====
-- l2tp/transport.go: the reliable transport of control messages. Sequence numbers, the send window,
-- the queues of the sender and of the receiver, and the events that the sender's loop handles.
pub mod Seq
pub mod SeqOrder
pub mod SlowStart
pub mod Window
pub mod State
pub mod Send
pub mod Ack
pub mod AckOrder
pub mod Order
pub mod Delivery
pub mod Flight
pub mod Outcomes
pub mod Invariant
pub mod Complete
pub mod Hello
pub mod Receive
pub mod Events
