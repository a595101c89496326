-- ===== src/External/Listening.antt =====
-- What the discovery callbacks of Fast DDS bring, and what ddspipe makes of it; neither is part of
-- this repository.
use fast_dds_spy.Prelude.{Bool, true, ◌≡◌, ◌↔◌, String, Option}
use fast_dds_spy.External.Guids.{Guids, Guid}
use fast_dds_spy.External.Topics.{Topics, Endpoint}

pub record Listening ⦃G : Guids⦄ ⦃T : Topics⦄ : Type 1 where
  -- The reason of a callback, with the two that say that an entity is there.
  pub Status : Type 0
  pub status_eq : Status → Status → Bool
  pub status_eq_iff : (a b : Status) → (status_eq a b ≡ true) ↔ (a ≡ b)
  pub discovered : Status
  pub changed_qos : Status
  -- ParticipantBuiltinTopicData
  pub ParticipantData : Type 0
  pub participant_guid : ParticipantData → Guid
  pub participant_name : ParticipantData → String
  -- SubscriptionBuiltinTopicData and PublicationBuiltinTopicData
  pub EndpointData : Type 0
  pub endpoint_guid : EndpointData → Guid
  pub come_from_same_participant : Guid → Guid → Bool
  -- create_endpoint_from_info_, for readers and for writers, with the id of the participant
  pub create_reader_from_info : EndpointData → String → Endpoint
  pub create_writer_from_info : EndpointData → String → Endpoint
  pub create_reader-guid :
      (info : EndpointData) (id : String)
      → (create_reader_from_info info id).guid ≡ endpoint_guid info
  pub create_reader-kind :
      (info : EndpointData) (id : String) → (create_reader_from_info info id).kind ≡ T.reader
  pub create_writer-guid :
      (info : EndpointData) (id : String)
      → (create_writer_from_info info id).guid ≡ endpoint_guid info
  pub create_writer-kind :
      (info : EndpointData) (id : String) → (create_writer_from_info info id).kind ≡ T.writer
  pub TypeObject : Type 0
  -- type_information.assigned()
  pub assigned : EndpointData → Bool
  -- get_type_object of the registry, at the identifier of the complete type; `none` is any return
  -- code that is not RETCODE_OK
  pub get_type_object : EndpointData → Option TypeObject
  -- create_type_w_type_object, build and idl_serialize
  pub idl_serialize : TypeObject → String
