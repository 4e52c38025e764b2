-- ===== src/Ums.antt =====
-- ums-client/src/client.ts: UmsClient, which matches the answers of the server to the requests.
pub mod Requests
pub mod Invariant
pub mod Preservation
pub mod Histories
pub mod Timeouts
pub mod Answers
pub mod Generated
pub mod Notifications
pub mod Connection
pub mod Config
pub mod Client
pub mod Object
pub mod Declarations
pub mod Interfaces
