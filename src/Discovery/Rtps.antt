-- ===== src/Discovery/Rtps.antt =====
-- fastddsspy_participants, SpyDdsParticipant.cpp: the listener of the participant of the RTPS layer.
use fast_dds_spy.Prelude.{String, List, [], ◌∷◌, if◌then◌else◌, ◌≡◌, refl}
use fast_dds_spy.External.Guids.{Guids, Guid}
use fast_dds_spy.External.DynTypes.{DynTypes}
use fast_dds_spy.External.Topics.{Topics, Endpoint}
use fast_dds_spy.External.Times.{Times}
use fast_dds_spy.External.Listening.{Listening}
use fast_dds_spy.SpyModel.{ParticipantInfo, Event, participant_info, endpoint_info}
use fast_dds_spy.Discovery.{
  is_present, get_type_idl, on_participant_discovery, on_data_reader_discovery,
  on_data_writer_discovery, notify_participant, notify_endpoint,
}

module _ ⦃G : Guids⦄ ⦃D : DynTypes⦄ ⦃T : Topics⦄ ⦃M : Times⦄ ⦃L : Listening⦄
    {Callback : Type 0} where
  unfoldable pub rtps_notify_participant : ParticipantInfo → List (Event Callback)
  rtps_notify_participant participant_discovered = participant_info participant_discovered ∷ []

  unfoldable pub rtps_notify_endpoint : Endpoint → String → List (Event Callback)
  rtps_notify_endpoint endpoint_discovered type_idl =
      endpoint_info (record { info = endpoint_discovered; type_idl = type_idl }) ∷ []

  unfoldable pub rtps_on_participant_discovery :
      Guid → L.Status → L.ParticipantData → List (Event Callback)
  unfolding rtps_notify_participant
  rtps_on_participant_discovery own reason info =
      if L.come_from_same_participant (L.participant_guid info) own
      then []
      else rtps_notify_participant (record {
        name = L.participant_name info;
        guid = L.participant_guid info;
        active = is_present reason;
      })

  unfoldable pub on_reader_discovery :
      Guid → String → L.Status → L.EndpointData → List (Event Callback)
  unfolding rtps_notify_endpoint
  on_reader_discovery own id reason info =
      if L.come_from_same_participant (L.endpoint_guid info) own
      then []
      else let endpoint : Endpoint = L.create_reader_from_info info id in
        rtps_notify_endpoint (record endpoint { active = is_present reason }) (get_type_idl info)

  unfoldable pub on_writer_discovery :
      Guid → String → L.Status → L.EndpointData → List (Event Callback)
  unfolding rtps_notify_endpoint
  on_writer_discovery own id reason info =
      if L.come_from_same_participant (L.endpoint_guid info) own
      then []
      else let endpoint : Endpoint = L.create_writer_from_info info id in
        rtps_notify_endpoint (record endpoint { active = is_present reason }) (get_type_idl info)

module _ ⦃G : Guids⦄ ⦃D : DynTypes⦄ ⦃T : Topics⦄ ⦃M : Times⦄ ⦃L : Listening⦄
    (Callback : Type 0) where
  -- The listeners of the two DDS participants send the same events to the internal topics for the same
  -- participant, reader or writer that is discovered.
  pub on_writer_discovery-same :
      (own : Guid) (id : String) (reason : L.Status) (entity : L.ParticipantData)
      (endpoint : L.EndpointData)
      → (◌≡◌ {A = List (Event Callback)}
          (rtps_on_participant_discovery own reason entity)
          (on_participant_discovery own reason entity))
        × (◌≡◌ {A = List (Event Callback)}
            (on_reader_discovery own id reason endpoint)
            (on_data_reader_discovery own id reason endpoint))
        × (◌≡◌ {A = List (Event Callback)}
            (on_writer_discovery own id reason endpoint)
            (on_data_writer_discovery own id reason endpoint))
  unfolding rtps_on_participant_discovery on_participant_discovery notify_participant
      on_reader_discovery on_data_reader_discovery on_writer_discovery on_data_writer_discovery
      notify_endpoint
  on_writer_discovery-same own id reason entity endpoint = (refl, refl, refl)
