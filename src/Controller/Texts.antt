-- ===== src/Controller/Texts.antt =====
-- Controller.cpp, help_command_, version_command_ and error_command_: the texts that are shown.
use Prim.Native.String.{◌++◌}
use fast_dds_spy.Prelude.{String, List, [], ◌∷◌}

-- The texts of a stream, one after the other.
unfoldable pub joined : List String → String
joined [] = ""
joined (s ∷ rest) = s ++ joined rest

-- Over the version and the commit hash, which the build fills in.
unfoldable pub version_command : String → String → String
version_command version commit_hash =
    "Fast DDS Spy " ++ (version ++ ("\ncommit hash: " ++ commit_hash))

unfoldable pub help_command : String
unfolding joined
help_command = joined (
    "Fast DDS Spy is an interactive CLI that allow to instrospect DDS networks.\n"
    ∷ "Each command shows data related with the network in Yaml format.\n"
    ∷ "Commands available and the information they show:\n"
    ∷ "\thelp                                        : this help.\n"
    ∷ "\tversion                                     : tool version.\n"
    ∷ "\tquit                                        : exit interactive CLI and close program.\n"
    ∷ "\tparticipants                                : DomainParticipants discovered in the network.\n"
    ∷ "\tparticipants verbose                        : verbose information about DomainParticipants discovered in the network.\n"
    ∷ "\tparticipants <Guid>                         : verbose information related with a specific DomainParticipant.\n"
    ∷ "\twriters                                     : DataWriters discovered in the network.\n"
    ∷ "\twriters verbose                             : verbose information about DataWriters discovered in the network.\n"
    ∷ "\twriters <Guid>                              : verbose information related with a specific DataWriter.\n"
    ∷ "\treader                                      : DataReaders discovered in the network.\n"
    ∷ "\treader verbose                              : verbose information about DataReaders discovered in the network.\n"
    ∷ "\treader <Guid>                               : verbose information related with a specific DataReader.\n"
    ∷ "\ttopics                                      : Topics discovered in the network in compact format.\n"
    ∷ "\ttopics v                                    : Topics discovered in the network.\n"
    ∷ "\ttopics vv                                   : verbose information about Topics discovered in the network.\n"
    ∷ "\ttopics <name>                               : Topics discovered in the network filtered by name (wildcard allowed (*)).\n"
    ∷ "\ttopics <name> idl                           : Display the IDL type definition for topics matching <name> (wildcards allowed).\n"
    ∷ "\ttopics <name> keys                          : Display the keys for topics matching <name> (wildcards allowed).\n"
    ∷ "\ttopics <name> keys v                        : verbose information about keys discovered in the network.\n"
    ∷ "\tfilters                                     : Display the active filters.\n"
    ∷ "\tfilters clear                               : Clear all the filter lists.\n"
    ∷ "\tfilter clear <category>                     : Clear <category> filter list.\n"
    ∷ "\tfilter add partitions <filter_str>          : Add <filter_str> in partitions filter list.\n"
    ∷ "\tfilter remove partitions <filter_str>       : Remove <filter_str> in partitions filter list.\n"
    ∷ "\tfilter set topic <topic_name> <filter_str>  : Set topic filter list with <filter_str> as first value.\n"
    ∷ "\techo <name>                                 : data of a specific Topic (Data Type must be discovered).\n"
    ∷ "\techo <wildcard_name>                        : data of Topics matching the wildcard name (and whose Data Type is discovered).\n"
    ∷ "\techo <name> verbose                         : data with additional source info of a specific Topic.\n"
    ∷ "\techo <wildcard_name> verbose                : data with additional source info of Topics matching the topic name (wildcard allowed (*)).\n"
    ∷ "\techo all                                    : verbose data of all topics (only those whose Data Type is discovered).\n"
    ∷ "\n" ∷ "Notes and comments:\n" ∷ "\tTo exit from data printing, press enter.\n"
    ∷ "\tEach command is accessible by using its first letter (h/v/q/p/w/r/t/s/f).\n" ∷ "\n"
    ∷ "For more information about these commands and formats, please refer to the documentation:\n"
    ∷ "https://fast-dds-spy.readthedocs.io/en/latest/\n" ∷ [])

unfoldable pub error_command : String → String
error_command argument =
    "<" ++ argument
    ++ "> is not a known command. Use <help> command to see valid commands and arguments."
