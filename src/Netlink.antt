-- ===== src/Netlink.antt =====
-- internal/nll2tp/: the L2TP commands of generic netlink.
pub mod Attributes
pub mod Conn
pub mod Decode
pub mod Accepts
pub mod Sessions
pub mod Answers
