-- ===== src/Adapters.antt =====
-- The adapters of adapters/, which take a stream of messages to where the logs go.
pub mod Gelf
pub mod Loki
pub mod Multiline
pub mod Raw
pub mod Syslog
