-- ===== src/Controller/EntityAnswers.antt =====
-- What participants <guid>, writers <guid> and readers <guid> answer, for a guid that is in the
-- database and for one that is not.
use Prim.Native.String.{◌++◌}
use fast_dds_spy.Prelude.{
  String, List, [], ◌∷◌, Option, none, some, Bool, true, false, if◌then◌else◌, ◌&&◌, ◌≡◌, refl, sym,
  ap, ◌∙◌, Bool-cases, Option-cases, inl, inr, arith,
}
use fast_dds_spy.Order.{Order, ◌=?◌}
use fast_dds_spy.Order.Texts.{string_order}
use fast_dds_spy.External.Guids.{Guids, Guid}
use fast_dds_spy.External.DynTypes.{DynTypes}
use fast_dds_spy.External.Topics.{Topics, Endpoint, EndpointKind}
use fast_dds_spy.External.Times.{Times}
use fast_dds_spy.External.Database.{Database}
use fast_dds_spy.Map
use fast_dds_spy.SpyModel.{SpyModel, ParticipantInfo, EndpointInfoData}
use fast_dds_spy.Parser.Data.{
  ComplexParticipantData, ComplexEndpointData, SimpleParticipantData, SimpleEndpointData,
}
use fast_dds_spy.Parser.Participants.{participant, no_participant}
use fast_dds_spy.Parser.Counts.{participant-tally}
use fast_dds_spy.Parser.Endpoints.{
  no_endpoint, fill_complex_endpoint, set_complex, writer_of, reader_of,
}
use fast_dds_spy.Parser.Described.{endpoint_shown, fill_complex_endpoint_lem}
use fast_dds_spy.Controller.Arguments.{verbose_argument}
use fast_dds_spy.Controller.EntityCommand.{
  Answer, show_simple, show_verbose, show_specific, show_error, dds_entity_command,
  participants_command, writers_command, readers_command,
}

abbrev pub is_error : {S C : Type 0} → Answer S C → Bool
is_error (show_simple xs) = false
is_error (show_verbose xs) = false
is_error (show_specific x) = false
is_error (show_error t) = true

module _ ⦃G : Guids⦄ ⦃T : Topics⦄ where
  -- The endpoint that is shown for a kind: an active one.
  abbrev pub if_shown : EndpointKind → Option EndpointInfoData → Option Endpoint
  if_shown kind none = none
  if_shown kind (some e) = if e.info.active && T.kind_eq e.info.kind kind then some e.info else none

  if_shown-guid :
      (kind : EndpointKind) (o : Option EndpointInfoData) (e : Endpoint) (guid : Guid)
      → ((x : EndpointInfoData) → o ≡ some x → x.info.guid ≡ guid)
      → if_shown kind o ≡ some e
      → e.guid ≡ guid
  if_shown-guid kind none e guid keyed shown = ground arith
  if_shown-guid kind (some x) e guid keyed shown =
      elim (Bool-cases (x.info.active && T.kind_eq x.info.kind kind)) [
        | inl f ↦ ground (arith, keyed x refl)
        | inr f ↦ ground arith
      ]

module _ ⦃G : Guids⦄ where
  -- The data have the name and the guid of the participant.
  abbrev pub HasName :
      ParticipantInfo → Guid → Answer SimpleParticipantData ComplexParticipantData → Type 0
  HasName p guid (show_simple xs) = ⊥
  HasName p guid (show_verbose xs) = ⊥
  HasName p guid (show_specific d) = (d.name ≡ p.name) × (d.guid ≡ guid)
  HasName p guid (show_error t) = ⊥

  abbrev Named :
      Option ParticipantInfo → Guid → Answer SimpleParticipantData ComplexParticipantData → Type 0
  Named none guid a = is_error a ≡ true
  Named (some p) guid a = HasName p guid a

module _ ⦃G : Guids⦄ ⦃go : Order Guid⦄ ⦃D : DynTypes⦄ ⦃T : Topics⦄ ⦃M : Times⦄
    ⦃P : Database Guid ParticipantInfo⦄ ⦃E : Database Guid EndpointInfoData⦄
    {Callback : Type 0} where
  -- The data of the endpoint, or the default-constructed data.
  abbrev pub data_of : SpyModel Callback → Option Endpoint → ComplexEndpointData
  data_of m none = no_endpoint
  data_of m (some e) = fill_complex_endpoint m no_endpoint e

  set_complex-none :
      (m : SpyModel Callback) (kind : EndpointKind) (guid : Guid)
      (es : List (Guid × EndpointInfoData))
      → Map.find guid es ≡ none
      → set_complex m no_endpoint kind guid es ≡ no_endpoint
  unfolding set_complex Map.find
  set_complex-none m kind guid [] missing = refl
  set_complex-none m kind guid ((k, e) ∷ rest) missing =
      ground (arith, set_complex-none m kind guid rest)

  set_complex_lem :
      (m : SpyModel Callback) (kind : EndpointKind) (guid : Guid)
      (es : List (Guid × EndpointInfoData))
      → Map.IsSorted es
      → set_complex m no_endpoint kind guid es ≡ data_of m (if_shown kind (Map.find guid es))
  unfolding set_complex Map.find
  set_complex_lem m kind guid [] sorted = refl
  set_complex_lem m kind guid ((k, e) ∷ rest) sorted = elim (Bool-cases (k =? guid)) [
    | inr other ↦ elim (Bool-cases e.info.active) [
      | inl f ↦ rw (other, f) (set_complex_lem m kind guid rest sorted.1)
      | inr f ↦ rw (other, f) (set_complex_lem m kind guid rest sorted.1)
    ]
    | inl same ↦
        let p : k ≡ guid = (go.eq_iff k guid).0 same in
        let below : Map.find guid rest ≡ none =
          ap (λ x. Map.find x rest) (sym p) ∙ Map.find_below k rest sorted.0 sorted.1 in
        elim (Bool-cases (e.info.active && T.kind_eq e.info.kind kind)) [
          | inl f ↦ rw (same, f) (ground arith)
          | inr f ↦ ground (arith, set_complex-none m kind guid rest below)
        ]
  ]

  -- The endpoint of the database under a guid, if it is shown for the kind.
  abbrev pub shown_endpoint : EndpointKind → SpyModel Callback → Guid → Option Endpoint
  shown_endpoint kind m guid = if_shown kind (Map.find guid (E.entries m.endpoint_database))

  participant_unknown :
      (m : SpyModel Callback) (guid : Guid)
      → Map.find guid (P.entries m.participant_database) ≡ none
      → participant m guid ≡ some no_participant
  unfolding participant
  participant_unknown m guid missing = rw (missing, participant) refl

  participant_known :
      (m : SpyModel Callback) (guid : Guid) (p : ParticipantInfo)
      → Map.find guid (P.entries m.participant_database) ≡ some p
      → G.is_valid guid ≡ true
      → (d : ComplexParticipantData) × (participant m guid ≡ some d)
        × (d.name ≡ p.name)
        × (d.guid ≡ guid)
  participant_known m guid p known valid = (_, participant-tally m guid p known valid, refl, refl)

  abbrev pub IsNamed :
      SpyModel Callback → Guid → Answer SimpleParticipantData ComplexParticipantData → Type 0
  IsNamed m guid a = Named (Map.find guid (P.entries m.participant_database)) guid a

  -- What is answered for a valid guid.
  abbrev pub IsAnswer :
      SpyModel Callback → Option Endpoint → Answer SimpleEndpointData ComplexEndpointData → Type 0
  IsAnswer m none a = is_error a ≡ true
  IsAnswer m (some e) a = a ≡ show_specific (endpoint_shown m e)

  writer_of_lem :
      (m : SpyModel Callback) (guid : Guid)
      → writer_of m guid ≡ data_of m (shown_endpoint T.writer m guid)
  unfolding writer_of
  writer_of_lem m guid =
      set_complex_lem m T.writer guid (E.entries m.endpoint_database) (E.sorted m.endpoint_database)

  -- writers <guid>, for a valid guid under which no endpoint of another guid stands: an error if the
  -- database has no active writer of this guid, and otherwise its guid, the name of its participant
  -- (the first active one in the database), the name and the type of its topic, demangled for ROS 2,
  -- the partition that it announces, if any, its durability and its reliability.
  pub writers_command-answer :
      (m : SpyModel Callback) (command text : String)
      → verbose_argument text ≡ false
      → G.is_valid (G.read_guid text) ≡ true
      → ((x : EndpointInfoData)
          → Map.find (G.read_guid text) (E.entries m.endpoint_database) ≡ some x
          → x.info.guid ≡ G.read_guid text)
      → (a : Answer SimpleEndpointData ComplexEndpointData) × (writers_command m
            (command ∷ text ∷ [])
          ≡ some a)
        × IsAnswer m (shown_endpoint T.writer m (G.read_guid text)) a
  unfolding writers_command dds_entity_command no_endpoint fill_complex_endpoint
  writers_command-answer m command text quiet valid keyed =
      let guid = G.read_guid text in
      let found = Map.find guid (E.entries m.endpoint_database) in
      elim (Option-cases (shown_endpoint T.writer m guid)) [
        | inl missing ↦ (
          show_error (text ++ " does not match with any known writer."),
          rw (quiet, valid, writer_of_lem m guid, missing, G.no_guid_invalid) refl,
          rw missing refl,
        )
        | inr (e, shown) ↦
            let own : G.is_valid e.guid ≡ true =
              ap G.is_valid (if_shown-guid T.writer found e guid keyed shown) ∙ valid in
            (
              show_specific (fill_complex_endpoint m no_endpoint e),
              rw (quiet, valid, writer_of_lem m guid, shown, own) refl,
              rw shown (ap show_specific (fill_complex_endpoint_lem m e)),
            )
      ]

  reader_of_lem :
      (m : SpyModel Callback) (guid : Guid)
      → reader_of m guid ≡ data_of m (shown_endpoint T.reader m guid)
  unfolding reader_of
  reader_of_lem m guid =
      set_complex_lem m T.reader guid (E.entries m.endpoint_database) (E.sorted m.endpoint_database)

  -- readers <guid>, for a valid guid under which no endpoint of another guid stands: an error if the
  -- database has no active reader of this guid, and otherwise its guid, the name of its participant
  -- (the first active one in the database), the name and the type of its topic, demangled for ROS 2,
  -- the partition that it announces, if any, its durability and its reliability.
  pub readers_command-answer :
      (m : SpyModel Callback) (command text : String)
      → verbose_argument text ≡ false
      → G.is_valid (G.read_guid text) ≡ true
      → ((x : EndpointInfoData)
          → Map.find (G.read_guid text) (E.entries m.endpoint_database) ≡ some x
          → x.info.guid ≡ G.read_guid text)
      → (a : Answer SimpleEndpointData ComplexEndpointData) × (readers_command m
            (command ∷ text ∷ [])
          ≡ some a)
        × IsAnswer m (shown_endpoint T.reader m (G.read_guid text)) a
  unfolding readers_command dds_entity_command no_endpoint fill_complex_endpoint
  readers_command-answer m command text quiet valid keyed =
      let guid = G.read_guid text in
      let found = Map.find guid (E.entries m.endpoint_database) in
      elim (Option-cases (shown_endpoint T.reader m guid)) [
        | inl missing ↦ (
          show_error (text ++ " does not match with any known reader."),
          rw (quiet, valid, reader_of_lem m guid, missing, G.no_guid_invalid) refl,
          rw missing refl,
        )
        | inr (e, shown) ↦
            let own : G.is_valid e.guid ≡ true =
              ap G.is_valid (if_shown-guid T.reader found e guid keyed shown) ∙ valid in
            (
              show_specific (fill_complex_endpoint m no_endpoint e),
              rw (quiet, valid, reader_of_lem m guid, shown, own) refl,
              rw shown (ap show_specific (fill_complex_endpoint_lem m e)),
            )
      ]

  -- participants <guid>, for a valid guid: an error if the database has no such participant, and
  -- otherwise the name and the guid of this participant, active or not.
  pub participants_command-answer :
      (m : SpyModel Callback) (command text : String)
      → verbose_argument text ≡ false
      → G.is_valid (G.read_guid text) ≡ true
      → (a : Answer SimpleParticipantData ComplexParticipantData) × (participants_command m
            (command ∷ text ∷ [])
          ≡ some a)
        × IsNamed m (G.read_guid text) a
  unfolding participants_command dds_entity_command
  participants_command-answer m command text quiet valid =
      let guid = G.read_guid text in
      elim (Option-cases (Map.find guid (P.entries m.participant_database))) [
        | inl missing ↦ (
          show_error (text ++ " does not match with any known participant."),
          rw (quiet, valid, participant_unknown m guid missing, G.no_guid_invalid) refl,
          rw missing refl,
        )
        | inr (p, known) ↦
            let (d, found, name, own) = participant_known m guid p known valid in
            let shown : G.is_valid d.guid ≡ true = ap G.is_valid own ∙ valid in
            (show_specific d, rw (quiet, valid, found, shown) refl, rw known (name, own))
      ]
