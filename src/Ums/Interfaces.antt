-- ===== src/Ums/Interfaces.antt =====
-- ums-generated/generated/index.ts: the interfaces of the messages.
pub mod Shared
pub mod Notifications
pub mod Responses
pub mod Requests
pub mod Schema
pub mod Messages
pub mod Exchange
