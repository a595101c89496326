-- ===== src/Controller/PrintCommand.antt =====
-- Controller::print_command_: the data of the topics, from the activation of the streamer until the
-- user presses a key. The wait is the sequence of what happens to the model meanwhile. activate_all
-- always answers true, so the error that would follow its refusal does not come.
use Prim.Native.String.{◌++◌}
use fast_dds_spy.Prelude.{
  String, List, [], ◌∷◌, Option, none, some, Bool, false, not, if◌then◌else◌, is_empty, ◌≡◌, refl,
  Bool-cases, inl, inr,
}
use fast_dds_spy.Order.{Order}
use fast_dds_spy.Order.Texts.{string_order}
use fast_dds_spy.External.Guids.{Guids, Guid}
use fast_dds_spy.External.DynTypes.{DynTypes}
use fast_dds_spy.External.Topics.{Topics, DdsTopic, FilterTopic}
use fast_dds_spy.External.Times.{Times}
use fast_dds_spy.External.Database.{Database}
use fast_dds_spy.SpyModel.{SpyModel, ParticipantInfo, EndpointInfoData}
use fast_dds_spy.External.Guids.{InstanceHandle}
use fast_dds_spy.DataStreamer
use fast_dds_spy.DataStreamer.Invariant.{
  IsReady, activate_all-IsReady, activate-IsReady, deactivate-IsReady,
}
use fast_dds_spy.SpyModel.{Event, run}
use fast_dds_spy.SpyModel.History.{run-IsReady}
use fast_dds_spy.Parser.Topics.{get_topics, no_type_information}
use fast_dds_spy.Controller.Arguments.{verbose_argument, all_argument}

pub data PrintReply : Type 0 where
  printed : PrintReply
  show_error : String → PrintReply

-- arguments.size() >= 3 and the third argument asks for it
unfoldable pub is_verbose : List String → Bool
unfolding verbose_argument
is_verbose [] = false
is_verbose (argument ∷ rest) = verbose_argument argument

module _ ⦃G : Guids⦄ ⦃go : Order Guid⦄ ⦃ho : Order InstanceHandle⦄ ⦃D : DynTypes⦄ ⦃T : Topics⦄
    ⦃to : Order DdsTopic⦄ ⦃M : Times⦄ ⦃P : Database Guid ParticipantInfo⦄
    ⦃E : Database Guid EndpointInfoData⦄ {Callback : Type 0} where
  abbrev end_print : Option (SpyModel Callback) → Option (SpyModel Callback × PrintReply)
  end_print none = none
  end_print (some m) = some (record m { streamer = DataStreamer.deactivate m.streamer }, printed)

  -- From the wait to the end.
  unfoldable pub print_until_key :
      SpyModel Callback → List (Event Callback) → Option (SpyModel Callback × PrintReply)
  unfolding run
  print_until_key m events = end_print (run m events)

  unfoldable pub print_topic :
      Callback
      → Callback
      → SpyModel Callback
      → String
      → List String
      → List (Event Callback)
      → Option (SpyModel Callback × PrintReply)
  unfolding print_until_key get_topics is_verbose
  print_topic data_stream_callback data_stream_callback_verbose m name options events =
      let filter_topic : FilterTopic = T.named_topic name in
      if is_empty (get_topics m filter_topic)
      then some (m, show_error ("<" ++ name ++ "> does not match any topic discovered."))
      else (if not
            (DataStreamer.is_any_topic_type_discovered m.streamer (get_topics m filter_topic))
          then some (m, show_error no_type_information)
          else print_until_key
              (record m {
                streamer = DataStreamer.activate m.streamer filter_topic (
                    if is_verbose options
                    then data_stream_callback_verbose
                    else data_stream_callback);
              })
              events)

  -- `none` stands for a dangling reference while data came in, or for no argument at all.
  unfoldable pub print_command :
      Callback
      → Callback
      → SpyModel Callback
      → List String
      → List (Event Callback)
      → Option (SpyModel Callback × PrintReply)
  unfolding print_until_key print_topic
  print_command data_stream_callback data_stream_callback_verbose m [] events = none
  print_command data_stream_callback data_stream_callback_verbose m (command ∷ []) events =
      some (m, show_error ("Command <" ++ command ++ "> requires at least one argument."))
  print_command data_stream_callback data_stream_callback_verbose m (command ∷ argument ∷ options)
        events =
      if all_argument argument
      then print_until_key
          (record m {
            streamer = DataStreamer.activate_all m.streamer data_stream_callback_verbose;
          })
          events
      else print_topic data_stream_callback data_stream_callback_verbose m argument options events

  -- After the command the streamer is not active, or nothing has changed.
  abbrev pub IsStopped : SpyModel Callback → SpyModel Callback → PrintReply → Type 0
  IsStopped m m' printed =
      ((m'.streamer).activated ≡ false) × ((m'.streamer).callback ≡ none) × IsReady m'.streamer
  IsStopped m m' (show_error t) = m' ≡ m

  print_until_key-IsStopped :
      (m m₀ : SpyModel Callback) (events : List (Event Callback))
      → IsReady m.streamer
      → (m' : SpyModel Callback) × (reply : PrintReply) × (print_until_key m events
          ≡ some (m', reply))
        × IsStopped m₀ m' reply
  unfolding print_until_key DataStreamer.deactivate
  print_until_key-IsStopped m m₀ events v =
      let (m', ran, ready) = run-IsReady m events v in
      (
        record m' { streamer = DataStreamer.deactivate m'.streamer },
        printed,
        rw ran refl,
        (refl, refl, deactivate-IsReady m'.streamer ready),
      )

  print_topic-IsStopped :
      (simple verbose : Callback) (m : SpyModel Callback) (name : String) (options : List String)
      (events : List (Event Callback))
      → IsReady m.streamer
      → (m' : SpyModel Callback) × (reply : PrintReply) × (print_topic simple verbose m name options
            events
          ≡ some (m', reply))
        × IsStopped m m' reply
  unfolding print_topic
  print_topic-IsStopped simple verbose m name options events v =
      let found = get_topics m (T.named_topic name) in
      elim (Bool-cases (is_empty found)) [
        | inl e ↦ (
          m,
          show_error ("<" ++ name ++ "> does not match any topic discovered."),
          rw e refl,
          refl,
        )
        | inr e ↦ elim (Bool-cases (DataStreamer.is_any_topic_type_discovered m.streamer found)) [
          | inr f ↦ (m, show_error no_type_information, rw (e, f) refl, refl)
          | inl f ↦
              let (m', reply, ran, stopped) =
                print_until_key-IsStopped
                  (record m {
                    streamer =
                        DataStreamer.activate m.streamer (T.named_topic name)
                          (if is_verbose options then verbose else simple);
                  })
                  m events (activate-IsReady m.streamer (T.named_topic name) _ v) in
              (m', reply, rw (e, f) ran, stopped)
        ]
      ]

  -- From a ready model, echo with any arguments comes to its end for any sequence of whole events,
  -- each of which runs undisturbed, while it waits: no sample is in flight when it deactivates.
  -- When it ends in an error nothing has changed; otherwise the streamer is inactive and has no
  -- callback, and it is ready for the next command.
  pub print_command-IsStopped :
      (simple verbose : Callback) (m : SpyModel Callback) (command : String) (options : List String)
      (events : List (Event Callback))
      → IsReady m.streamer
      → (m' : SpyModel Callback) × (reply : PrintReply) × (print_command simple verbose m
            (command ∷ options)
            events
          ≡ some (m', reply))
        × IsStopped m m' reply
  unfolding print_command
  print_command-IsStopped simple verbose m command [] events v = (m, show_error _, refl, refl)
  print_command-IsStopped simple verbose m command (argument ∷ options) events v =
      elim (Bool-cases (all_argument argument)) [
        | inl e ↦
            let (m', reply, ran, stopped) =
              print_until_key-IsStopped
                (record m { streamer = DataStreamer.activate_all m.streamer verbose }) m events
                (activate_all-IsReady m.streamer verbose v) in
            (m', reply, rw e ran, stopped)
        | inr e ↦
            let (m', reply, ran, stopped) =
              print_topic-IsStopped simple verbose m argument options events v in
            (m', reply, rw e ran, stopped)
      ]
