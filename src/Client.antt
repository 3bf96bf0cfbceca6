-- ===== src/Client.antt =====
-- The client side of the crate (src/client).
pub mod Key
pub mod Tls
pub mod Stream
pub mod Dns
pub mod Handshake
pub mod Builder
pub mod Single
pub mod Mock
pub mod Handle
pub mod Pool
pub mod Start
pub mod Error
