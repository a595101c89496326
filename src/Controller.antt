-- ===== src/Controller.antt =====
-- fastddsspy_tool/src/cpp/tool/Controller.cpp, impl/Controller.ipp and Command.hpp: the commands of
-- the user, what they show, and what they change.
pub mod Splitting
pub mod Endpoints
pub mod JsonLayout
pub mod JsonText
pub mod DataView
pub mod Shown
pub mod Texts
pub mod Activity
pub mod Backend
pub mod Filters
pub mod FilterCommand
pub mod FilterErrors
pub mod FilterEffects
pub mod ContentFilters
pub mod Arguments
pub mod EntityCommand
pub mod EntityAnswers
pub mod TopicsCommand
pub mod TopicsAnswers
pub mod PrintCommand
pub mod FilterTotal
pub mod Told
pub mod Session
pub mod SessionEnds
pub mod SessionTold
pub mod SessionKeyed
