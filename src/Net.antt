-- ===== src/Net.antt =====
-- private_poker/src/net: the messages, the server's tokens and its two threads, and the encoding of
-- messages on a stream.
pub mod Io
pub mod Messages
pub mod TokenMap
pub mod Tokens
pub mod Server
pub mod Utils
pub mod Client
