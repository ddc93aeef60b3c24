-- ===== src/Tests.antt =====
-- The theorems about src/ at concrete inputs, and runs of the code.
pub mod Data
mod Receiving
mod Dispatching
mod Control
mod Sending
mod Runs
mod Encoding
mod Chunks
mod Safety
mod Streaming
mod Protocols
mod Logging
mod Serving
mod Handshaking
