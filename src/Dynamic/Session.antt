-- ===== src/Dynamic/Session.antt =====
-- l2tp/l2tp_dynamic_session.go: a session of a dynamic tunnel.
pub mod State
pub mod Act
pub mod Step
pub mod Counts
pub mod Up
pub mod Moves
pub mod Icrp
pub mod Once
