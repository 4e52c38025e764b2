-- ===== src/Sessions.antt =====
-- le-agent-session-provider and le-consumer-session-provider: how agents and consumers log in.
pub mod Consumer
pub mod Agent
pub mod Cookies
pub mod Interfaces
pub mod Typed
