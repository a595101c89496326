-- ===== src/Controller/Arguments.antt =====
-- Controller.cpp and Command.hpp: the spellings of the arguments and of the commands.
use fast_dds_spy.Prelude.{String, List, [], ◌∷◌, Bool, ◌||◌}
use fast_dds_spy.Order.{◌=?◌}
use fast_dds_spy.Order.Texts.{string_order}

unfoldable pub verbose_argument : String → Bool
verbose_argument argument =
    argument =? "verbose"
    || argument =? "v"
    || argument =? "-v"
    || argument =? "--v"
    || argument =? "V"

unfoldable pub verbose_verbose_argument : String → Bool
verbose_verbose_argument argument =
    argument =? "verbose2" || argument =? "vv" || argument =? "--vv" || argument =? "VV"

unfoldable pub idl_argument : String → Bool
idl_argument argument = argument =? "idl"

unfoldable pub keys_argument : String → Bool
keys_argument argument =
    argument =? "keys" || argument =? "key" || argument =? "k" || argument =? "K"

unfoldable pub all_argument : String → Bool
all_argument argument =
    argument =? "all" || argument =? "a" || argument =? "-a" || argument =? "--a" || argument =? "A"

-- CommandValue
pub data CommandValue : Type 0 where
  empty_command : CommandValue
  help : CommandValue
  exit : CommandValue
  version : CommandValue
  participant : CommandValue
  datawriter : CommandValue
  datareader : CommandValue
  topic : CommandValue
  print : CommandValue
  error_input : CommandValue
  filter : CommandValue

-- The table of CommandBuilder.
unfoldable pub spellings : CommandValue → List String
spellings empty_command = "" ∷ []
spellings help = "help" ∷ "h" ∷ "H" ∷ "man" ∷ []
spellings exit = "quit" ∷ "q" ∷ "Q" ∷ "quit()" ∷ "exit" ∷ "x" ∷ "exit()" ∷ []
spellings version = "version" ∷ "v" ∷ "V" ∷ []
spellings participant = "participant" ∷ "participants" ∷ "p" ∷ "P" ∷ []
spellings datawriter =
    "datawriter" ∷ "datawriters" ∷ "w" ∷ "W" ∷ "writer" ∷ "writers" ∷ "publication" ∷ "publications"
    ∷ []
spellings datareader =
    "datareader" ∷ "datareaders" ∷ "r" ∷ "R" ∷ "reader" ∷ "readers" ∷ "subscription"
    ∷ "subscriptions" ∷ []
spellings topic = "topic" ∷ "topics" ∷ "t" ∷ "T" ∷ []
spellings print = "echo" ∷ "print" ∷ "show" ∷ "s" ∷ "S" ∷ []
spellings error_input = []
spellings filter = "filter" ∷ "filters" ∷ "partitions" ∷ "f" ∷ "F" ∷ []
