-- ===== src/External/Yaml.antt =====
-- YAML::Node of yaml-cpp, the set functions of ddspipe_yaml and the texts that cpp_utils and the
-- standard library make of values; none of them is part of this repository. A scalar node is
-- kept as the text that its value was encoded to, so that the number 5 and the text 5 are one node.
use fast_dds_spy.Prelude.{ℤ, ℕ, String, Bool, List, ◌≡◌, Option, none, some, if◌then◌else◌}
use fast_dds_spy.Order.{◌=?◌}
use fast_dds_spy.Order.Texts.{string_order}
use fast_dds_spy.External.Guids.{Guids, Guid}
use fast_dds_spy.External.Topics.{Topics}
use fast_dds_spy.External.Times.{Times, DataTime, Float}

-- EmitterStyle
pub data Style : Type 0 where
  block flow : Style

mutual
  pub data Node : Type 0 where
    null_node : Node
    text_node : String → Node
    sequence : Style → Nodes → Node
    mapping : Entries → Node

  pub data Nodes : Type 0 where
    no_node : Nodes
    node : Node → Nodes → Nodes

  pub data Entries : Type 0 where
    no_entry : Entries
    entry : String → Node → Entries → Entries

unfoldable pub nodes_then : Nodes → Nodes → Nodes
nodes_then no_node ys = ys
nodes_then (node x xs) ys = node x (nodes_then xs ys)

unfoldable pub entries_then : Entries → Entries → Entries
entries_then no_entry fs = fs
entries_then (entry k x es) fs = entry k x (entries_then es fs)

-- The value under a key.
unfoldable pub find_entry : String → Entries → Option (Node)
find_entry k no_entry = none
find_entry k (entry j x es) = if j =? k then some x else find_entry k es

-- The texts that a bool, an int64_t and a double are encoded to, as they are assigned to a node.
pub record Scalars (Double : Type 0) : Type 0 where
  pub show_bool : Bool → String
  pub show_integer : ℤ → String
  pub show_double : Double → String

pub record Yamls : Type 1 where
  pub push_back : Node → Node → Node
  -- A null node becomes a sequence.
  pub push_back-null : (x : Node) → push_back null_node x ≡ sequence block (node x no_node)
  pub push_back-sequence :
      (s : Style) (xs : Nodes) (x : Node)
      → push_back (sequence s xs) x ≡ sequence s (nodes_then xs (node x no_node))
  -- SetStyle
  pub set_style : Style → Node → Node
  pub set_style-sequence : (s t : Style) (xs : Nodes) → set_style s (sequence t xs) ≡ sequence s xs
  -- node[key] = value; a null node becomes a map.
  pub assign : Node → String → Node → Node
  pub assign-null : (k : String) (x : Node) → assign null_node k x ≡ mapping (entry k x no_entry)
  pub assign-new :
      (k : String) (x : Node) (es : Entries)
      → find_entry k es ≡ none
      → assign (mapping es) k x ≡ mapping (entries_then es (entry k x no_entry))
  -- set of a text, a number and a truth value
  pub set_text : Node → String → Node
  pub set_number : Node → ℕ → Node
  pub set_bool : Node → Bool → Node
  -- set of a vector, with the set of its elements
  pub set_vector : {A : Type 0} → (Node → A → Node) → Node → List A → Node
  -- set_in_tag, with the set of the value
  pub set_in_tag : {A : Type 0} → (Node → A → Node) → Node → String → A → Node
  pub set_in_tag-assign :
      {A : Type 0} (set : Node → A → Node) (yml : Node) (tag : String) (v : A)
      → set_in_tag set yml tag v ≡ assign yml tag (set null_node v)
  pub set_text-node : (yml : Node) (s : String) → set_text yml s ≡ text_node s

-- What a stream, std::to_string, generic_to_string and timestamp_to_string write.
pub record Formats ⦃G : Guids⦄ ⦃T : Topics⦄ ⦃M : Times⦄ : Type 0 where
  pub show_number : ℕ → String
  pub show_float : Float → String
  pub float_to_string : Float → String
  pub generic_to_string : Guid → String
  -- of the seconds of a time, with a format
  pub timestamp_to_string : DataTime → String → String
  -- == VOLATILE and == BEST_EFFORT
  pub is_volatile : T.DurabilityKind → Bool
  pub is_best_effort : T.ReliabilityKind → Bool
