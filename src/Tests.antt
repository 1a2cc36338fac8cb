-- ===== src/Tests.antt =====
-- Concrete runs of the program: a small world, and each result of the library at one input.
pub mod World
pub mod EndToEnd
mod Fec
pub mod Backend
mod Bridge
mod Client
mod Capture
mod Protocol
mod Aws
mod Modes
mod Dashboard
mod Stream
mod Setup
mod Settings
