-- ===== src/Generate.antt =====
-- ums-generated/build/generate_interfaces.ts: the script that writes the types of the events and the
-- wrappers of their handlers.
pub mod Structures
pub mod Common
pub mod Wrappers
pub mod Typings
pub mod Main
pub mod Lookup
pub mod Extends
pub mod Declares
pub mod Handlers
pub mod Loaded
pub mod Runs
pub mod Complete
pub mod Whole
pub mod Written
pub mod Responses
pub mod Checked
pub mod Agreement
