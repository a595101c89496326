-- ===== src/InternalTopics/Routes.antt =====
-- The way of what is discovered, from the readers of the DDS participant to the model.
use fast_dds_spy.Prelude.{◌≡◌, refl}
use fast_dds_spy.Order.Texts.{string_order}
use fast_dds_spy.External.Topics.{Topics, DdsTopic}
use fast_dds_spy.External.InternalTopics.{TopicTools}
use fast_dds_spy.InternalTopics.{
  participants_route, endpoints_route, participant_info_topic, endpoint_info_topic,
  xml_create_reader, rtps_create_reader, create_writer,
}

module _ ⦃T : Topics⦄ ⦃I : TopicTools⦄ where
  -- On every topic, the reader of either DDS participant and the writer of the spy participant are of
  -- the same kind; on the two internal topics they are the internal ones of that topic, so that what
  -- is discovered reaches the handler that is meant for it.
  pub create_writer-routes :
      ((topic : DdsTopic)
        → (xml_create_reader topic ≡ create_writer topic)
          × (rtps_create_reader topic ≡ create_writer topic))
      × (create_writer participant_info_topic ≡ participants_route)
      × (create_writer endpoint_info_topic ≡ endpoints_route)
  unfolding xml_create_reader rtps_create_reader create_writer participant_info_topic
      endpoint_info_topic
  create_writer-routes =
      (λ topic. (refl, refl), simp (I.make_topic-discriminator), simp (I.make_topic-discriminator))
