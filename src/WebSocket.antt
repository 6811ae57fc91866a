-- ===== src/WebSocket.antt =====
-- src/uvhttp_websocket.c: frames (`Frame`), the connection and what it sends (`Connection`),
-- the reassembly of fragmented messages (`Fragments`) and receiving (`Receive`).
pub mod Frame
pub mod Connection
pub mod Fragments
pub mod Receive
mod Tests
