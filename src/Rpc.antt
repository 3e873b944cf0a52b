-- ===== src/Rpc.antt =====
-- esphome_rpc.c: the framing of the ESPHome native API over a socket, its messages, and the loop
-- that serves a connection.
pub mod Socket
pub mod Varint
pub mod Header
pub mod Messages
pub mod Service
pub mod Listen
