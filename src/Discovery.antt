-- ===== src/Discovery.antt =====
-- fastddsspy_participants, SpyDdsXmlParticipant.cpp and detail/TypeIdlProvider.hpp: what the listener
-- sends to the internal topics when Fast DDS discovers something. SpyDdsParticipant.cpp does the
-- same on the types of the RTPS layer.
pub mod Arrival
pub mod Rtps
use fast_dds_spy.Prelude.{String, List, [], ◌∷◌, Option, none, some, Bool, ◌||◌, not, if◌then◌else◌}
use fast_dds_spy.External.Guids.{Guids, Guid}
use fast_dds_spy.External.DynTypes.{DynTypes}
use fast_dds_spy.External.Topics.{Topics, Endpoint}
use fast_dds_spy.External.Times.{Times}
use fast_dds_spy.External.Listening.{Listening}
use fast_dds_spy.SpyModel.{
  ParticipantInfo, EndpointInfoData, Event, participant_info, endpoint_info,
}

module _ ⦃G : Guids⦄ ⦃T : Topics⦄ ⦃L : Listening⦄ where
  -- The entity is there, and not leaving.
  abbrev pub is_present : L.Status → Bool
  is_present reason = L.status_eq reason L.discovered || L.status_eq reason L.changed_qos

  -- The empty text says that there is none.
  unfoldable pub get_type_idl : L.EndpointData → String
  get_type_idl info = if not (L.assigned info) then "" else elim (L.get_type_object info) [
    | none ↦ ""
    | some type_object ↦ L.idl_serialize type_object
  ]

module _ ⦃G : Guids⦄ ⦃D : DynTypes⦄ ⦃T : Topics⦄ ⦃M : Times⦄ ⦃L : Listening⦄
    {Callback : Type 0} where
  -- internal_notify_participant_discovered_ and internal_notify_endpoint_discovered_
  unfoldable pub notify_participant : ParticipantInfo → List (Event Callback)
  notify_participant info = participant_info info ∷ []

  unfoldable pub notify_endpoint : Endpoint → String → List (Event Callback)
  notify_endpoint info type_idl = endpoint_info (record { info = info; type_idl = type_idl }) ∷ []

  -- The callbacks, over the guid of the own participant and its id.
  unfoldable pub on_participant_discovery :
      Guid → L.Status → L.ParticipantData → List (Event Callback)
  unfolding notify_participant
  on_participant_discovery own reason info =
      if L.come_from_same_participant (L.participant_guid info) own
      then []
      else notify_participant (record {
        name = L.participant_name info;
        guid = L.participant_guid info;
        active = is_present reason;
      })

  unfoldable pub on_data_reader_discovery :
      Guid → String → L.Status → L.EndpointData → List (Event Callback)
  unfolding notify_endpoint
  on_data_reader_discovery own id reason info =
      if L.come_from_same_participant (L.endpoint_guid info) own
      then []
      else let endpoint : Endpoint = L.create_reader_from_info info id in
        notify_endpoint (record endpoint { active = is_present reason }) (get_type_idl info)

  unfoldable pub on_data_writer_discovery :
      Guid → String → L.Status → L.EndpointData → List (Event Callback)
  unfolding notify_endpoint
  on_data_writer_discovery own id reason info =
      if L.come_from_same_participant (L.endpoint_guid info) own
      then []
      else let endpoint : Endpoint = L.create_writer_from_info info id in
        notify_endpoint (record endpoint { active = is_present reason }) (get_type_idl info)
