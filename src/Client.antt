-- ===== src/Client.antt =====
-- The classes of the clients, which extend one another: CsdsClient (csds-client), LeClient
-- (le-client) and TransportClient (transport-client). One record holds the fields of an object of
-- the last class; a method is a task over it, and takes the virtual methods that it calls.
pub mod Machine
pub mod Services
pub mod Config
pub mod State
pub mod CsdsClient
pub mod LeClient
pub mod TransportClient
pub mod Lifecycle
pub mod RefreshTask
pub mod Contract
