-- ===== src/Rpc.antt =====
-- modules/rpc: the HTTP front end, the JSON-RPC dispatch and the hexadecimal numbers of its methods.
pub mod Types
pub mod Responses
pub mod Http
pub mod Server
pub mod Hex
mod Tests
