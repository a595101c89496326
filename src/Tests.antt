-- ===== src/Tests.antt =====
-- Concrete runs of the definitions: the external code is instantiated by small functions.
pub mod World
pub mod Json
pub mod Shown
pub mod Startup
pub mod Running
pub mod Cache
pub mod Model
pub mod Parsing
pub mod Commands
pub mod Discovered
