-- ===== src/Server.antt =====
-- The server side of the crate (src/server).
pub mod ReadVersion
pub mod Upgrade
pub mod Wire
pub mod Sni
pub mod ConnInfo
pub mod Builder
pub mod Acceptor
pub mod Connecting
