-- ===== src/Tests/World.antt =====
-- A small world: identifiers and times are numbers, topics, types and data are texts, and a database
-- is a sorted list.
use Prim.Native.String.{◌++◌}
use fast_dds_spy.Prelude.{
  ℕ, ◌-◌, ◌/◌, ◌==◌, ==_iff, String, List, [], ◌∷◌, some, true, not, ◌||◌, ◌≡◌, refl, arith,
  if◌then◌else◌,
}
use fast_dds_spy.Order.{Order, ◌=?◌}
use fast_dds_spy.Order.Texts.{string_order, nat_order}
use fast_dds_spy.External.Guids.{Guids}
use fast_dds_spy.External.DynTypes.{DynTypes, returned}
use fast_dds_spy.External.Topics.{Topics}
use fast_dds_spy.External.Times.{Times}
use fast_dds_spy.External.Database.{Database}
use fast_dds_spy.External.Patterns.{Patterns}
use fast_dds_spy.Map
use fast_dds_spy.SpyModel.{ParticipantInfo, EndpointInfoData}

-- A guid is its prefix times ten and a last digit; 0 is the invalid one.
instance abbrev pub number_guids : Guids
number_guids = record {
  Guid = ℕ;
  InstanceHandle = ℕ;
  GuidPrefix = ℕ;
  prefix_eq = ◌==◌;
  prefix_eq_iff = ==_iff;
  guid_prefix = λ g. g / 10;
  no_guid = 0;
  is_valid = λ g. not (g == 0);
  no_guid_invalid = refl;
  show_guid = λ g. if g == 11 then "11" else "12";
  read_guid = λ s. if s =? "11" then 11 else (if s =? "21" then 21 else 0);
}

-- A type is its name, and its data are the text of its key.
instance abbrev pub text_types : DynTypes
text_types = record {
  DynamicType = String;
  Member = String;
  Payload = String;
  DynamicData = String;
  get_name = λ t. t;
  get_all_members = λ t. returned ("id" ∷ []);
  is_key = λ m. returned true;
  member_name = λ m. m;
  deserialize = λ t p. returned p;
  build_struct = λ name members. some name;
  create_data = λ t. some "";
  loan_value = λ d m. returned (some d);
  set_complex_value = λ d m v. v;
  json_serialize = λ d. returned ("{" ++ d ++ "}");
}

instance abbrev pub text_topics : Topics
text_topics = record {
  DdsTopic = String;
  topic_name = λ t. t;
  type_name = λ t. "Shape";
  partition_name = λ t. [];
  DurabilityKind = ℕ;
  ReliabilityKind = ℕ;
  durability_qos = λ t. 1;
  reliability_qos = λ t. 1;
  no_durability = 0;
  no_reliability = 0;
  FilterTopic = String;
  any_topic = "*";
  named_topic = λ s. s;
  matches = λ f t. f =? "*" || f =? t;
  EndpointKind = ℕ;
  kind_eq = ◌==◌;
  kind_eq_iff = ==_iff;
  reader = 0;
  writer = 1;
  reader_ne_writer = refl;
  demangle_if_ros_topic = λ s. s;
  demangle_if_ros_type = λ s. s;
}

pub nothing_between : (t : ℕ) → (t - t == 0) ≡ true
nothing_between t = ground arith

instance abbrev pub number_times : Times
number_times = record {
  DataTime = ℕ;
  Float = ℕ;
  zero_float = 0;
  infinity = 1000000;
  seconds_between = λ a b. b - a;
  is_zero = λ x. x == 0;
  is_zero-seconds_between = nothing_between;
  divide = ◌/◌;
}

instance abbrev pub text_patterns : Patterns
text_patterns = record { match_pattern = λ pattern s. pattern =? "*" || pattern =? s }

abbrev list_database : {K V : Type 0} → ⦃o : Order K⦄ → Database K V
list_database {K} {V} ⦃o⦄ = record {
  Db = (m : List (K × V)) × Map.IsSorted m;
  empty = ([], tt);
  entries = λ d. d.0;
  add_or_modify = λ k v d. (Map.insert k v d.0, Map.insert-IsSorted k v d.0 d.1);
  entries-empty = refl;
  sorted = λ d. d.1;
  find-add_or_modify = λ k j v d. Map.find-insert k j v d.0;
}

instance abbrev pub participant_list : Database ℕ ParticipantInfo
participant_list = list_database

instance abbrev pub endpoint_list : Database ℕ EndpointInfoData
endpoint_list = list_database
