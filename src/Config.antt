-- ===== src/Config.antt =====
-- config/config.go: the parsing of tunnel and session configurations.
pub mod Types
pub mod Convert
pub mod Load
pub mod Ranges
pub mod Ignored
pub mod Print
pub mod Chosen
pub mod Printed
pub mod RoundTrip
