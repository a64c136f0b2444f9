-- ===== src/WebSocket.antt =====
-- WebSocket data framing (RFC 6455, section 5): include/neixx/net/websocket/websocket_frame.h and
-- src/neixx/net/websocket/websocket_frame.cpp.
pub mod Frame
pub mod Parser
pub mod Builder
pub mod Bytes
pub mod RoundTrip
pub mod Client
mod Tests
