-- ===== src/Platform.antt =====
-- What the program uses of the JavaScript and Node platform: values, timers and event emitters.
pub mod Values
pub mod Timers
pub mod Emitter
pub mod Interfaces
