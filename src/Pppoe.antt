-- ===== src/Pppoe.antt =====
-- pppoe/: the codec of PPPoE discovery packets.
pub mod Packet
pub mod Build
pub mod Parse
