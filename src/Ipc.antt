-- ===== src/Ipc.antt =====
-- Communication between processes (include/neixx/ipc and src/neixx/ipc).
pub mod Framing
pub mod MessageChannel
pub mod RpcFrame
pub mod RpcEndpoint
mod Tests
