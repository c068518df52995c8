-- ===== src/Context.antt =====
-- l2tp/l2tp.go: the context, what it keeps of its tunnels, and what a tunnel keeps of its sessions.
pub mod Links
pub mod Alloc
pub mod Events
pub mod Address
pub mod Create
