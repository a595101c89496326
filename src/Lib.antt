-- ===== src/Lib.antt =====
-- Fast DDS Spy: the core of an interactive tool that shows the participants, the endpoints, the
-- topics and the data of a DDS network.
--
-- The tool has four parts. The participants of the library fastddsspy_participants discover the
-- network and send what they find, and every sample, through a pipe (ddspipe). SpyParticipant writes
-- this into a model (SpyModel): two databases, of participants and of endpoints, and a streamer of
-- data, with the rates of the topics and a cache of their instances. ModelParser turns the model into
-- the data that are shown. The Controller of fastddsspy_tool runs the commands of the user: it asks
-- the parser, activates the streamer, and keeps filters, which it passes on through the Backend.
--
-- Which file models which part:
--   InstanceCache           fastddsspy_participants/src/cpp/model/InstanceCache.cpp: the state, the
--                           queries and on_writer_changed; Keys has the key metadata and the key of a
--                           sample as JSON, Update add_or_update_instance
--   TopicRate               .../model/TopicRateCalculator.cpp: add_data, get_topic_rate
--   DataStreamer            .../model/DataStreamer.cpp: all of its functions
--   SpyModel                .../model/SpyModel.cpp and .../participant/SpyParticipant.cpp: the model,
--                           the two handlers (new_participant_info_, new_endpoint_info_), and the
--                           events of the pipe and of the user as steps
--   Discovery               .../participant/SpyDdsXmlParticipant.cpp and detail/TypeIdlProvider.hpp: the
--                           events that the discovery callbacks send (Rtps has those of
--                           SpyDdsParticipant.cpp)
--   Parser                  .../visualization/ModelParser.cpp and visualization/parser_data.hpp: Data,
--                           Participants, Endpoints, Topics
--   Controller              fastddsspy_tool/src/cpp/tool/Controller.cpp, impl/Controller.ipp,
--                           Command.hpp and Backend.cpp: Arguments (the spellings), EntityCommand
--                           (participants, writers, readers), TopicsCommand, PrintCommand (echo),
--                           FilterCommand, Session (run_command_ and run), and Filters, Endpoints
--                           and Splitting (update_partitions and update_endpoints); JsonLayout is the
--                           layout of JSON, DataView the two callbacks for samples, Texts the fixed
--                           texts
--   InternalTopics          .../types/ParticipantInfo.cpp and EndpointInfo.cpp, create_reader of the two
--                           DDS participants and create_writer of SpyParticipant
--   YamlWriter              fastddsspy_yaml/src/cpp/YamlWriter.cpp: the overloads of set; Values has
--                           json_to_yaml, Instances the keys of a topic
--   Configuration           .../YamlReaderConfiguration.cpp: the default configuration and is_valid;
--                           Loading has the functions that load one
--   CommandLine             .../CommandlineArgsSpy.cpp, and fastddsspy_tool/src/cpp/user_interface: Usage
--                           is the table of options, Checks the struct Arg, Parsing parse_arguments
--   Tool                    fastddsspy_tool/src/cpp/tool/Backend.cpp (load_internal_topics_; Starting has
--                           its constructor), and main.cpp (Main)
--   External                the code that is not part of the repository, as records of its operations
--                           and of the laws that are used: guids, dynamic types, topics and their
--                           filters, times and floats, the locked databases, match_pattern
--   Prelude, Order, Map, Set  helpers: tests, orders, and std::map and std::set as sorted lists
--   Tests                   runs on a small concrete world, which instantiates all of External
--
-- How the code is read. A mutex is the atomicity of the function that holds it; a function that
-- gives the mutex up is two steps (InstanceCache.Update, DataStreamer.deliver). A result none is
-- what the source leaves undefined: a dangling reference, an index past the end, a missing argument.
-- Numbers are natural numbers; the counter of the samples keeps its 32 bits, and the int counters of
-- the endpoints are taken not to overflow. An event is a call that runs undisturbed, with the call
-- of the callback in it; what two calls do that overlap is in InstanceCache.Race, SpyModel.Overtaken
-- and DataStreamer.Race only. Two topics that compare equal are taken to be equal, also in their
-- QoS. The scalars of YAML are the texts that they are encoded to. The limit of 1000 instances per
-- topic is the one of the source. An exception is a result too: none, or a case of its own. The
-- interactive run is a list of commands with what happens in between. No definition runs on fuel:
-- the loops are over lists. The time of the clock is an argument.
--
-- Not modelled: the reading of a command's words, the terminal, log messages and the set-up of the log,
-- the XML profiles and the file watcher, which are library code or output; the listeners, readers and
-- pipe of ddspipe, into which the program calls.

pub mod Prelude
pub mod Order
pub mod Map
pub mod Set
pub mod External
pub mod InstanceCache
pub mod TopicRate
pub mod DataStreamer
pub mod SpyModel
pub mod Discovery
pub mod Parser
pub mod YamlWriter
pub mod CommandLine
pub mod Configuration
pub mod InternalTopics
pub mod Controller
pub mod Tool
pub mod Tests
