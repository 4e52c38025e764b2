-- ===== src/Tests.antt =====
-- Runs of the program's parts at concrete inputs, with concrete libraries and services.
mod Requests
mod Resolvers
mod Clients
mod Objects
mod Sockets
mod Sessions
mod Scripts
mod Schemas
mod Messages
