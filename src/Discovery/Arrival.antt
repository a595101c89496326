-- ===== src/Discovery/Arrival.antt =====
-- What a discovery callback leaves in the model when its event has gone through the pipe.
use fast_dds_spy.Prelude.{
  String, List, some, Bool, true, false, ◌&&◌, ◌||◌, Option, none, Option-cases, not, ◌≡◌, refl,
  if◌then◌else◌, Bool-cases, inl, inr, ap, ◌∙◌, any, ◌++◌,
}
use fast_dds_spy.Order.{Order, ◌=?◌}
use fast_dds_spy.External.Guids.{Guids, Guid, InstanceHandle}
use fast_dds_spy.External.DynTypes.{DynTypes}
use fast_dds_spy.External.Topics.{Topics, DdsTopic, Endpoint, is_writer}
use fast_dds_spy.External.Times.{Times}
use fast_dds_spy.External.Database.{Database}
use fast_dds_spy.External.Listening.{Listening}
use fast_dds_spy.Map
use fast_dds_spy.DataStreamer.Invariant.{IsReady}
use fast_dds_spy.SpyModel.{
  ParticipantInfo, EndpointInfoData, SpyModel, Event, new_participant_info, new_endpoint_info, step,
  run,
}
use fast_dds_spy.SpyModel.Departure.{IsAbsent, is_sample_of, departed_writer_stays_gone}
use fast_dds_spy.DataStreamer.{DataStreamer, on_writer_discovered}
use fast_dds_spy.Discovery.{
  is_present, get_type_idl, notify_participant, notify_endpoint, on_participant_discovery,
  on_data_reader_discovery, on_data_writer_discovery,
}

module _ ⦃G : Guids⦄ ⦃T : Topics⦄ ⦃L : Listening⦄ where
  -- The IDL of a type object, if the type information is assigned and names one.
  abbrev pub idl_of : Bool → Option L.TypeObject → String
  idl_of false object = ""
  idl_of true none = ""
  idl_of true (some object) = L.idl_serialize object

  -- The endpoint as the database holds it after the callback: active if it was discovered or has
  -- changed its QoS.
  abbrev pub arrived : Endpoint → L.Status → L.EndpointData → EndpointInfoData
  arrived endpoint reason info = record {
    info = record endpoint {
      active = L.status_eq reason L.discovered || L.status_eq reason L.changed_qos;
    };
    type_idl = idl_of (L.assigned info) (L.get_type_object info);
  }

  get_type_idl_lem :
      (info : L.EndpointData)
      → get_type_idl info ≡ idl_of (L.assigned info) (L.get_type_object info)
  unfolding get_type_idl
  get_type_idl_lem info = elim (Bool-cases (L.assigned info)) [
    | inr no_type ↦ rw no_type refl
    | inl typed ↦ elim (Option-cases (L.get_type_object info)) [
      | inl unknown ↦ rw (typed, unknown, get_type_idl) refl
      | inr (object, known) ↦ rw (typed, known, get_type_idl) refl
    ]
  ]

  -- The writer that a callback is about.
  abbrev pub the_writer : L.EndpointData → String → Endpoint
  the_writer info id = L.create_writer_from_info info id

module _ ⦃G : Guids⦄ ⦃go : Order Guid⦄ ⦃ho : Order InstanceHandle⦄ ⦃D : DynTypes⦄ ⦃T : Topics⦄
    ⦃to : Order DdsTopic⦄ ⦃M : Times⦄ ⦃P : Database Guid ParticipantInfo⦄
    ⦃E : Database Guid EndpointInfoData⦄ ⦃L : Listening⦄ {Callback : Type 0} where
  -- The streamers differ in their instance caches at most.
  abbrev pub IsSameData : DataStreamer Callback → DataStreamer Callback → Type 0
  IsSameData s s' =
      (s'.data_by_topic ≡ s.data_by_topic)
      × (s'.activated ≡ s.activated)
      × (s'.activated_all ≡ s.activated_all)
      × (s'.activated_topic ≡ s.activated_topic)
      × (s'.callback ≡ s.callback)
      × (s'.types_discovered ≡ s.types_discovered)

  new_endpoint_info-IsSameData :
      (m : SpyModel Callback) (e : EndpointInfoData)
      → IsSameData m.streamer (new_endpoint_info m e).streamer
  unfolding new_endpoint_info on_writer_discovered
  new_endpoint_info-IsSameData m e = elim (Bool-cases (is_writer e.info)) [
    | inl writes ↦ rw writes (refl, refl, refl, refl, refl, refl)
    | inr other ↦ rw other (refl, refl, refl, refl, refl, refl)
  ]

  -- The endpoint stands in the database, and the rest is as it was.
  pub record IsStored (m m' : SpyModel Callback) (guid : Guid) (received : EndpointInfoData)
      : Type 0 where
    pub stored :
        (g : Guid)
        → Map.find g (E.entries m'.endpoint_database)
          ≡ (if guid =? g then some received else Map.find g (E.entries m.endpoint_database))
    pub same_participants : m'.participant_database ≡ m.participant_database
    pub same_data : IsSameData m.streamer m'.streamer

  -- For an endpoint of the own participant nothing changes.
  abbrev pub Arrives :
      Bool → SpyModel Callback → SpyModel Callback → Guid → EndpointInfoData → Type 0
  Arrives true m m' guid received = m' ≡ m
  Arrives false m m' guid received = IsStored m m' guid received

  foreign_reader :
      (m : SpyModel Callback) (own : Guid) (id : String) (reason : L.Status) (info : L.EndpointData)
      → L.come_from_same_participant (L.endpoint_guid info) own ≡ false
      → (m' : SpyModel Callback) × (run m (on_data_reader_discovery own id reason info) ≡ some m')
        × IsStored m m'
            (L.endpoint_guid info)
            (arrived (L.create_reader_from_info info id) reason info)
  unfolding on_data_reader_discovery notify_endpoint run step new_endpoint_info
  foreign_reader m own id reason info foreign =
      let received = arrived (L.create_reader_from_info info id) reason info in
      (
        new_endpoint_info m received,
        rw (foreign, get_type_idl_lem info) refl,
        record {
          stored = λ g.
              E.find-add_or_modify received.info.guid g received m.endpoint_database
              ∙ ap
                  (λ x.
                    if x =? g then some received else Map.find g (E.entries m.endpoint_database))
                  (L.create_reader-guid info id);
          same_participants = refl;
          same_data = new_endpoint_info-IsSameData m received;
        },
      )

  foreign_writer :
      (m : SpyModel Callback) (own : Guid) (id : String) (reason : L.Status) (info : L.EndpointData)
      → L.come_from_same_participant (L.endpoint_guid info) own ≡ false
      → (m' : SpyModel Callback) × (run m (on_data_writer_discovery own id reason info) ≡ some m')
        × IsStored m m'
            (L.endpoint_guid info)
            (arrived (L.create_writer_from_info info id) reason info)
  unfolding on_data_writer_discovery notify_endpoint run step new_endpoint_info
  foreign_writer m own id reason info foreign =
      let received = arrived (L.create_writer_from_info info id) reason info in
      (
        new_endpoint_info m received,
        rw (foreign, get_type_idl_lem info) refl,
        record {
          stored = λ g.
              E.find-add_or_modify received.info.guid g received m.endpoint_database
              ∙ ap
                  (λ x.
                    if x =? g then some received else Map.find g (E.entries m.endpoint_database))
                  (L.create_writer-guid info id);
          same_participants = refl;
          same_data = new_endpoint_info-IsSameData m received;
        },
      )

  foreign_participant :
      (m : SpyModel Callback) (own : Guid) (reason : L.Status) (info : L.ParticipantData)
      → L.come_from_same_participant (L.participant_guid info) own ≡ false
      → (m' : SpyModel Callback) × (run m (on_participant_discovery own reason info) ≡ some m')
        × ((g : Guid)
            → Map.find g (P.entries m'.participant_database) ≡ (
                if L.participant_guid info =? g
                then some (record {
                  name = L.participant_name info;
                  guid = L.participant_guid info;
                  active = is_present reason;
                })
                else Map.find g (P.entries m.participant_database)))
        × (m'.endpoint_database ≡ m.endpoint_database)
  unfolding on_participant_discovery notify_participant run step new_participant_info
  foreign_participant m own reason info foreign = (
    new_participant_info m (record {
      name = L.participant_name info;
      guid = L.participant_guid info;
      active = is_present reason;
    }),
    rw foreign refl,
    λ g. P.find-add_or_modify (L.participant_guid info) g _ m.participant_database,
    refl,
  )

  -- The callback for a discovered reader, when its event has gone through: the database has the
  -- reader under its guid, with the IDL of its type, or an empty text where the type is not known,
  -- active exactly when the reason is that it was discovered or has changed its QoS; every other
  -- endpoint, the participants and the streamer, except for its instance cache, are as they were. If
  -- the reader comes from the own participant, the model does not change at all.
  pub on_data_reader_discovery-Arrives :
      (m : SpyModel Callback) (own : Guid) (id : String) (reason : L.Status) (info : L.EndpointData)
      → (m' : SpyModel Callback) × (run m (on_data_reader_discovery own id reason info) ≡ some m')
        × Arrives
            (L.come_from_same_participant (L.endpoint_guid info) own)
            m
            m'
            (L.endpoint_guid info)
            (arrived (L.create_reader_from_info info id) reason info)
  unfolding on_data_reader_discovery run
  on_data_reader_discovery-Arrives m own id reason info =
      elim (Bool-cases (L.come_from_same_participant (L.endpoint_guid info) own)) [
        | inl same ↦ (m, rw same refl, rw same refl)
        | inr other ↦
            let (m', ran, arrives) = foreign_reader m own id reason info other in
            (m', ran, rw other arrives)
      ]

  -- The callback for a discovered writer, when its event has gone through: the database has the
  -- writer under its guid, with the IDL of its type, or an empty text where the type is not known,
  -- active exactly when the reason is that it was discovered or has changed its QoS; every other
  -- endpoint, the participants and the streamer, except for its instance cache, are as they were. If
  -- the writer comes from the own participant, the model does not change at all.
  pub on_data_writer_discovery-Arrives :
      (m : SpyModel Callback) (own : Guid) (id : String) (reason : L.Status) (info : L.EndpointData)
      → (m' : SpyModel Callback) × (run m (on_data_writer_discovery own id reason info) ≡ some m')
        × Arrives
            (L.come_from_same_participant (L.endpoint_guid info) own)
            m
            m'
            (L.endpoint_guid info)
            (arrived (L.create_writer_from_info info id) reason info)
  unfolding on_data_writer_discovery run
  on_data_writer_discovery-Arrives m own id reason info =
      elim (Bool-cases (L.come_from_same_participant (L.endpoint_guid info) own)) [
        | inl same ↦ (m, rw same refl, rw same refl)
        | inr other ↦
            let (m', ran, arrives) = foreign_writer m own id reason info other in
            (m', ran, rw other arrives)
      ]

  -- The callback for a discovered participant, when its event has gone through: the database has
  -- its name under its guid, active exactly when the reason says that it is there; every other
  -- participant and the endpoints are as they were. If the participant comes from the own
  -- participant, nothing changes.
  pub on_participant_discovery-arrives :
      (m : SpyModel Callback) (own : Guid) (reason : L.Status) (info : L.ParticipantData)
      → (m' : SpyModel Callback) × (run m (on_participant_discovery own reason info) ≡ some m')
        × ((g : Guid)
            → Map.find g (P.entries m'.participant_database) ≡ (
                if not (L.come_from_same_participant (L.participant_guid info) own)
                  && L.participant_guid info =? g
                then some (record {
                  name = L.participant_name info;
                  guid = L.participant_guid info;
                  active = is_present reason;
                })
                else Map.find g (P.entries m.participant_database)))
        × (m'.endpoint_database ≡ m.endpoint_database)
  unfolding on_participant_discovery run
  on_participant_discovery-arrives m own reason info =
      elim (Bool-cases (L.come_from_same_participant (L.participant_guid info) own)) [
        | inl same ↦ (m, rw same refl, λ g. rw same refl, refl)
        | inr other ↦
            let (m', ran, finds, rest) = foreign_participant m own reason info other in
            (m', ran, λ g. rw other (finds g), rest)
      ]

  -- From a ready model, once the callback for a writer of another participant, undisturbed, says that
  -- it has left, the model runs on through any sequence of whole events, each of which runs
  -- undisturbed, and the writer is in no instance of its topic, as long as none of them is a sample of
  -- it on the topic. An update that began before the callback and ends after it is no such event.
  pub on_data_writer_discovery-IsAbsent :
      (m : SpyModel Callback) (own : Guid) (id : String) (reason : L.Status) (info : L.EndpointData)
      (events : List (Event Callback))
      → IsReady m.streamer
      → L.come_from_same_participant (L.endpoint_guid info) own ≡ false
      → is_present reason ≡ false
      → any
          (is_sample_of (the_writer info id).guid (T.topic_name (the_writer info id).topic))
          events
        ≡ false
      → (m' : SpyModel Callback) × (run m (on_data_writer_discovery own id reason info ++ events)
          ≡ some m')
        × IsAbsent
            (the_writer info id).guid
            (T.topic_name (the_writer info id).topic)
            m'.streamer.instance_cache
  unfolding on_data_writer_discovery notify_endpoint run step
  on_data_writer_discovery-IsAbsent m own id reason info events v foreign left other =
      let received = arrived (the_writer info id) reason info in
      let kind : T.kind_eq received.info.kind T.writer ≡ true =
        (T.kind_eq_iff (the_writer info id).kind T.writer).1 (L.create_writer-kind info id) in
      let (m', ran, absent) = departed_writer_stays_gone m received events v kind left other in
      (m', rw (foreign, get_type_idl_lem info) ran, absent)
