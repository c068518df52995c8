-- ===== src/Kpppoed.antt =====
-- cmd/kpppoed/: the PPPoE access concentrator daemon.
pub mod State
pub mod Handlers
pub mod Run
pub mod Daemons
pub mod Replies
pub mod Silent
pub mod Params
