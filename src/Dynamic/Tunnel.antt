-- ===== src/Dynamic/Tunnel.antt =====
-- l2tp/l2tp_dynamic_tunnel.go: a tunnel that runs the control protocol.
pub mod State
pub mod Act
pub mod Step
pub mod Counts
pub mod Quiet
pub mod Moves
pub mod Up
pub mod Once
