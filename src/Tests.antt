-- ===== src/Tests.antt =====
-- Concrete inputs for the theorems, a theorem for each component.
pub mod Application
pub mod Wire
pub mod Connections
pub mod Threads
mod Puzzle
pub mod Solving
pub mod Polling
pub mod Playing
pub mod Clients
pub mod Serving
pub mod Greetings
pub mod Openings
pub mod Interleavings
