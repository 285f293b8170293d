-- ===== src/Message.antt =====
-- src/net_message.c: the wire format of network messages. A C integer is its bit pattern: an
-- int32_t is a number below 2 ^ 32, an int16_t one below 2 ^ 16, and -1 is `minus_one`.
pub mod Write
pub mod Read
pub mod RoundTrip
pub mod Strings
pub mod Delta
pub mod UserCmd
pub mod Vector
pub mod Entity
pub mod Cursor
mod Tests
