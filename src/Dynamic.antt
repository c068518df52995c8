-- ===== src/Dynamic.antt =====
-- l2tp/l2tp_dynamic_tunnel.go and l2tp/l2tp_dynamic_session.go: the control protocol of tunnels and
-- sessions, as the state machines of the two files.
pub mod Args
pub mod Session
pub mod Tunnel
