-- ===== src/P2p.antt =====
-- modules/p2p: peer addresses, peer exchange and peer discovery, TCP connections and the TCP server.
pub mod Address
pub mod Exchange
pub mod Server
pub mod Tcp
pub mod Client
pub mod Udp
pub mod Discovery
pub mod Tests
