-- ===== src/WsTransport.antt =====
-- transport-ws: the transport over a WebSocket.
pub mod Config
pub mod State
pub mod Handlers
pub mod Connection
pub mod Waiting
pub mod Sending
pub mod Delivery
pub mod Fifo
pub mod Losses
pub mod Emission
pub mod Clocks
pub mod Moments
pub mod Polls
pub mod Silence
pub mod Listening
pub mod Pongs
pub mod Callbacks
