-- ===== src/External.antt =====
-- The code that the program calls and that is not part of this repository, as interfaces.
pub mod Guids
pub mod Json
pub mod Yaml
pub mod Options
pub mod InternalTopics
pub mod YamlReading
pub mod DynTypes
pub mod Samples
pub mod Topics
pub mod Times
pub mod Database
pub mod Patterns
pub mod Listening
