-- ===== src/Parser.antt =====
-- fastddsspy_participants, ModelParser.cpp and parser_data.hpp: what the user interface shows of the
-- model.
pub mod Data
pub mod Participants
pub mod Tally
pub mod Counts
pub mod Endpoints
pub mod Topics
pub mod Listing
pub mod Verbose
pub mod Described
