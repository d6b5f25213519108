-- ===== src/WebSocket.antt =====
-- lualib-src/lua-websocketnetpack.c: the WebSocket side of the gateway, which cuts the bytes
-- that a socket delivers into frames.
pub mod Frame
pub mod Wire
pub mod Queue
pub mod Pending
pub mod Mask
pub mod Handshake
pub mod Outcome
pub mod Push
pub mod Filter
mod Tests
