-- ===== src/Parser/Counts.antt =====
-- participants(model, guid): what is shown of a participant, and how many endpoints on each topic.
use fast_dds_spy.Prelude.{
  String, List, [], ◌∷◌, some, Bool, true, false, ◌≡◌, refl, ◌&&◌, if◌then◌else◌, Bool-cases, inl,
  inr,
}
use fast_dds_spy.Order.{Order}
use fast_dds_spy.External.Guids.{Guids, Guid}
use fast_dds_spy.External.DynTypes.{DynTypes}
use fast_dds_spy.External.Topics.{Topics, Endpoint, EndpointKind, is_reader, is_writer}
use fast_dds_spy.External.Times.{Times}
use fast_dds_spy.External.Database.{Database}
use fast_dds_spy.Map
use fast_dds_spy.SpyModel.{SpyModel, ParticipantInfo, EndpointInfoData}
use fast_dds_spy.Parser.Data.{ComplexParticipantData, ParticipantEndpoint}
use fast_dds_spy.Parser.Participants.{Gathered, gather_one, gather_participant, participant}
use fast_dds_spy.Parser.Tally.{
  Tally, entries, tally_add, tally_all, Simulates, add-Simulates, empty-Simulates,
}
use fast_dds_spy.Parser.Tally.Entries.{
  lookup, IsDistinct, entry_of, IsDistinct-tally_all, lookup-tally_all,
}

module _ ⦃G : Guids⦄ ⦃T : Topics⦄ where
  reader_not_writer :
      (k : EndpointKind) → T.kind_eq k T.reader ≡ true → T.kind_eq k T.writer ≡ false
  reader_not_writer k h = rw ((T.kind_eq_iff k T.reader).0 h) T.reader_ne_writer

  -- The endpoints of one participant and one kind, in the order of the database.
  abbrev pub endpoints_of :
      G.GuidPrefix → (Endpoint → Bool) → List (Guid × EndpointInfoData) → List Endpoint
  endpoints_of prefix p [] = []
  endpoints_of prefix p ((k, e) ∷ rest) =
      if G.prefix_eq (G.guid_prefix e.info.guid) prefix && p e.info
      then e.info ∷ endpoints_of prefix p rest
      else endpoints_of prefix p rest

  abbrev tally_if : Bool → Bool → Tally → Endpoint → Tally
  tally_if b ros2_types t e = if b then tally_add ros2_types t e else t

  module _ ⦃go : Order Guid⦄ (ros2_types : Bool) (prefix : G.GuidPrefix) where
    gather_one-Simulates :
        (r w : Gathered) (tr tw : Tally) (e : EndpointInfoData)
        → Simulates r tr
        → Simulates w tw
        → (r' w' : Gathered) × (gather_one ros2_types prefix (r, w) e ≡ some (r', w'))
          × Simulates r' (
              tally_if
                (G.prefix_eq (G.guid_prefix e.info.guid) prefix && is_reader e.info)
                ros2_types
                tr
                e.info)
          × Simulates w' (
              tally_if
                (G.prefix_eq (G.guid_prefix e.info.guid) prefix && is_writer e.info)
                ros2_types
                tw
                e.info)
    unfolding gather_one
    gather_one-Simulates r w tr tw e sr sw =
        elim (Bool-cases (G.prefix_eq (G.guid_prefix e.info.guid) prefix)) [
          | inr other ↦ (r, w, rw other refl, rw other sr, rw other sw)
          | inl own ↦ elim (Bool-cases (is_reader e.info)) [
            | inl reads ↦
                let (r', added, s) = add-Simulates ros2_types r tr e.info sr in
                (
                  r',
                  w,
                  rw (own, reads, added) refl,
                  rw (own, reads) s,
                  rw (own, reader_not_writer e.info.kind reads) sw,
                )
            | inr other ↦ elim (Bool-cases (is_writer e.info)) [
              | inl writes ↦
                  let (w', added, s) = add-Simulates ros2_types w tw e.info sw in
                  (
                    r,
                    w',
                    rw (own, other, writes, added) refl,
                    rw (own, other) sr,
                    rw (own, writes) s,
                  )
              | inr neither ↦
                  (r, w, rw (own, other, neither) refl, rw (own, other) sr, rw (own, neither) sw)
            ]
          ]
        ]

    tally_if-all :
        (b : Bool) (t : Tally) (e : Endpoint) (es : List Endpoint)
        → tally_all ros2_types (tally_if b ros2_types t e) es
          ≡ tally_all ros2_types t (if b then e ∷ es else es)
    unfolding tally_all
    tally_if-all true t e es = refl
    tally_if-all false t e es = refl

    gather_participant-Simulates :
        (r w : Gathered) (tr tw : Tally) (es : List (Guid × EndpointInfoData))
        → Simulates r tr
        → Simulates w tw
        → (r' w' : Gathered) × (gather_participant ros2_types prefix (r, w) es ≡ some (r', w'))
          × Simulates r' (tally_all ros2_types tr (endpoints_of prefix is_reader es))
          × Simulates w' (tally_all ros2_types tw (endpoints_of prefix is_writer es))
    unfolding gather_participant tally_all
    gather_participant-Simulates r w tr tw [] sr sw = (r, w, refl, sr, sw)
    gather_participant-Simulates r w tr tw ((k, e) ∷ rest) sr sw =
        let (r₁, w₁, one, sr₁, sw₁) = gather_one-Simulates r w tr tw e sr sw in
        let (r₂, w₂, all, sr₂, sw₂) = gather_participant-Simulates r₁ w₁ _ _ rest sr₁ sw₁ in
        (
          r₂,
          w₂,
          rw (one, gather_participant) all,
          rw (tally_if-all _ tr e.info _) at sr₂,
          rw (tally_if-all _ tw e.info _) at sw₂,
        )

  -- What is shown of the endpoints of one kind: no two entries are of the same topic, and the entry of
  -- each topic has its name and the type of the first endpoint on it, as they are shown, and the
  -- number of the endpoints on it; a topic without endpoints has none.
  abbrev pub IsTallied : Bool → List ParticipantEndpoint → List Endpoint → Type 0
  IsTallied ros2_types shown es =
      (t : Tally) × (shown ≡ entries t)
      × IsDistinct t
      × ((topic : String) → lookup topic t ≡ entry_of ros2_types topic es)

  tally_all-IsTallied :
      (ros2_types : Bool) (es : List Endpoint)
      → IsTallied ros2_types (entries (tally_all ros2_types [] es)) es
  unfolding lookup IsDistinct
  tally_all-IsTallied ros2_types es = (
    tally_all ros2_types [] es,
    refl,
    IsDistinct-tally_all ros2_types [] es tt,
    λ topic. lookup-tally_all topic ros2_types [] es,
  )

module _ ⦃G : Guids⦄ ⦃go : Order Guid⦄ ⦃D : DynTypes⦄ ⦃T : Topics⦄ ⦃M : Times⦄
    ⦃P : Database Guid ParticipantInfo⦄ ⦃E : Database Guid EndpointInfoData⦄
    {Callback : Type 0} where
  -- All that the database holds of one kind of a participant's endpoints.
  abbrev pub own_endpoints : (Endpoint → Bool) → SpyModel Callback → Guid → List Endpoint
  own_endpoints kind model guid =
      endpoints_of (G.guid_prefix guid) kind (E.entries model.endpoint_database)

  -- For a known participant with a valid guid, participants(model, guid) never indexes past a vector
  -- and shows its readers and its writers with one entry per topic, in the order of the database.
  pub participant-tally :
      (m : SpyModel Callback) (guid : Guid) (p : ParticipantInfo)
      → Map.find guid (P.entries m.participant_database) ≡ some p
      → G.is_valid guid ≡ true
      → participant m guid
        ≡ some (record {
          name = p.name;
          guid = guid;
          writers = entries (tally_all m.ros2_types [] (own_endpoints is_writer m guid));
          readers = entries (tally_all m.ros2_types [] (own_endpoints is_reader m guid));
        })
  unfolding participant
  participant-tally m guid p known valid =
      let ((i, readers), (j, writers), gathered, sr, sw) =
        gather_participant-Simulates m.ros2_types (G.guid_prefix guid) ([], []) ([], []) [] []
          (E.entries m.endpoint_database) empty-Simulates empty-Simulates in
      rw (known, participant, valid, gathered) (rw (sr.vector, sw.vector) refl)

  -- For a known participant with a valid guid, participants(model, guid) never indexes past a vector,
  -- and has the name and the guid of the participant. Its readers and its writers are tallied by
  -- topic: one entry for each topic on which the participant has endpoints of the kind, active or not,
  -- with the name of the topic and the type of the first of them, demangled for ROS 2, and with their
  -- number.
  pub participant-IsTallied :
      (m : SpyModel Callback) (guid : Guid) (p : ParticipantInfo)
      → Map.find guid (P.entries m.participant_database) ≡ some p
      → G.is_valid guid ≡ true
      → (d : ComplexParticipantData) × (participant m guid ≡ some d)
        × (d.name ≡ p.name)
        × (d.guid ≡ guid)
        × IsTallied m.ros2_types d.readers (own_endpoints is_reader m guid)
        × IsTallied m.ros2_types d.writers (own_endpoints is_writer m guid)
  participant-IsTallied m guid p known valid = (
    _,
    participant-tally m guid p known valid,
    refl,
    refl,
    tally_all-IsTallied m.ros2_types (own_endpoints is_reader m guid),
    tally_all-IsTallied m.ros2_types (own_endpoints is_writer m guid),
  )
