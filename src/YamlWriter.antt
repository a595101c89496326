-- ===== src/YamlWriter.antt =====
-- fastddsspy_yaml/src/cpp/YamlWriter.cpp: the YAML of the data that the parser makes. A function
-- takes the node that the source changes and answers what becomes of it.
pub mod Values
pub mod Instances
pub mod RoundTrip
pub mod Listed
use Prim.Native.String.{◌++◌}
use fast_dds_spy.Prelude.{ℕ, String, Bool, if◌then◌else◌}
use fast_dds_spy.Order.{◌=?◌}
use fast_dds_spy.Order.Texts.{string_order}
use fast_dds_spy.External.Guids.{Guids, Guid}
use fast_dds_spy.External.Topics.{Topics}
use fast_dds_spy.External.Times.{Times, DataTime}
use fast_dds_spy.External.Yaml.{Yamls, Node, Formats}
use fast_dds_spy.Parser.Data.{
  SimpleParticipantData, ParticipantEndpoint, ComplexParticipantData, TopicData, SimpleEndpointData,
  ExtendedTopic, Qos, ComplexEndpointData, Rate, SimpleTopicData, TopicEndpoint, ComplexTopicData,
  DdsDataData,
}

module _ ⦃G : Guids⦄ ⦃T : Topics⦄ ⦃M : Times⦄ ⦃F : Formats⦄ ⦃Y : Yamls⦄ where
  unfoldable pub set_guid : Node → Guid → Node
  set_guid yml value = Y.set_text yml (F.generic_to_string value)

  unfoldable pub set_timestamp : Node → DataTime → Node
  set_timestamp yml value = Y.set_text yml (F.timestamp_to_string value "%Y/%m/%d %H:%M:%S")

  unfoldable pub set_simple_participant : Node → SimpleParticipantData → Node
  unfolding set_guid
  set_simple_participant yml value =
      let yml = Y.set_in_tag Y.set_text yml "name" value.name in
      Y.set_in_tag set_guid yml "guid" value.guid

  unfoldable pub set_participant_endpoint : Node → ParticipantEndpoint → Node
  set_participant_endpoint yml value = Y.set_text yml (
      value.topic_name
      ++ (" [" ++ (value.topic_type ++ ("] (" ++ (F.show_number value.number ++ ")")))))

  unfoldable pub set_complex_participant : Node → ComplexParticipantData → Node
  unfolding set_guid set_participant_endpoint
  set_complex_participant yml value =
      let yml = Y.set_in_tag Y.set_text yml "name" value.name in
      let yml = Y.set_in_tag set_guid yml "guid" value.guid in
      let yml =
        Y.set_in_tag (Y.set_vector set_participant_endpoint) yml "datawriters" value.writers in
      Y.set_in_tag (Y.set_vector set_participant_endpoint) yml "datareaders" value.readers

  unfoldable pub set_topic : Node → TopicData → Node
  set_topic yml value = Y.set_text yml (value.topic_name ++ (" [" ++ (value.topic_type ++ "]")))

  unfoldable pub set_simple_endpoint : Node → SimpleEndpointData → Node
  unfolding set_guid set_topic
  set_simple_endpoint yml value =
      let yml = Y.set_in_tag set_guid yml "guid" value.guid in
      let yml = Y.set_in_tag Y.set_text yml "participant" value.participant_name in
      Y.set_in_tag set_topic yml "topic" value.topic

  unfoldable pub set_extended_topic : Node → ExtendedTopic → Node
  set_extended_topic yml value =
      let yml = Y.set_in_tag Y.set_text yml "name" value.topic_name in
      let yml = Y.set_in_tag Y.set_text yml "type" value.topic_type in
      Y.set_in_tag Y.set_text yml "partitions" value.partition

  unfoldable pub set_qos : Node → Qos → Node
  set_qos yml value =
      let yml =
        Y.set_in_tag Y.set_text yml "durability"
          (if F.is_volatile value.durability then "volatile" else "transient-local") in
      Y.set_in_tag Y.set_text yml "reliability"
        (if F.is_best_effort value.reliability then "best-effort" else "reliable")

  unfoldable pub set_complex_endpoint : Node → ComplexEndpointData → Node
  unfolding set_guid set_extended_topic set_qos
  set_complex_endpoint yml value =
      let yml = Y.set_in_tag set_guid yml "guid" value.guid in
      let yml = Y.set_in_tag Y.set_text yml "participant" value.participant_name in
      let yml = Y.set_in_tag set_extended_topic yml "topic" value.topic in
      Y.set_in_tag set_qos yml "qos" value.qos

  unfoldable pub set_rate : Node → Rate → Node
  set_rate yml value = Y.set_text yml (F.show_float value.rate ++ (" " ++ value.unit))

  unfoldable pub set_compact_topic : Node → SimpleTopicData → Node
  set_compact_topic yml value = Y.set_in_tag Y.set_text yml "topic" (
      value.name
      ++ (" ("
          ++ (value.type
              ++ (") ("
                  ++ (F.show_number value.datawriters
                      ++ ("|"
                          ++ (F.show_number value.datareaders
                              ++ (") ["
                                  ++ (F.float_to_string value.rate.rate
                                      ++ (" " ++ (value.rate.unit ++ "]")))))))))))

  unfoldable pub set_simple_topic : Node → SimpleTopicData → Bool → Node
  unfolding set_compact_topic set_rate
  set_simple_topic yml value is_compact =
      let full = Y.set_in_tag Y.set_text yml "name" value.name in
      let full = Y.set_in_tag Y.set_text full "type" value.type in
      let full = Y.set_in_tag Y.set_number full "datawriters" value.datawriters in
      let full = Y.set_in_tag Y.set_number full "datareaders" value.datareaders in
      let full = Y.set_in_tag set_rate full "rate" value.rate in
      if is_compact then set_compact_topic yml value else full

  unfoldable pub set_topic_endpoint : Node → TopicEndpoint → Node
  set_topic_endpoint yml value = Y.set_text yml (
      G.show_guid value.guid
      ++ (" [" ++ ((if value.partition =? "" then "\"\"" else value.partition) ++ "]")))

  unfoldable pub set_complex_topic : Node → ComplexTopicData → Node
  unfolding set_topic_endpoint set_rate
  set_complex_topic yml value =
      let yml = Y.set_in_tag Y.set_text yml "name" value.name in
      let yml = Y.set_in_tag Y.set_text yml "type" value.type in
      let yml =
        Y.set_in_tag (Y.set_vector set_topic_endpoint) yml "datawriters" value.datawriters in
      let yml =
        Y.set_in_tag (Y.set_vector set_topic_endpoint) yml "datareaders" value.datareaders in
      let yml = Y.set_in_tag set_rate yml "rate" value.rate in
      Y.set_in_tag Y.set_bool yml "dynamic_type_discovered" value.discovered

  unfoldable pub set_data : Node → DdsDataData → Node
  unfolding set_topic set_guid set_timestamp
  set_data yml value =
      let yml = Y.set_in_tag set_topic yml "topic" value.topic in
      let yml = Y.set_in_tag set_guid yml "writer" value.writer in
      let yml = Y.set_in_tag Y.set_text yml "partitions" value.partitions in
      Y.set_in_tag set_timestamp yml "timestamp" value.timestamp
