-- ===== src/External/InternalTopics.antt =====
-- DdsTopic with an internal type discriminator, and the topic of the type objects, of ddspipe_core,
-- which are not part of this repository.
use fast_dds_spy.Prelude.{String, ◌≡◌}
use fast_dds_spy.External.Topics.{Topics}

pub record TopicTools ⦃T : Topics⦄ : Type 0 where
  -- A default-constructed topic with its name, its type name and its discriminator set.
  pub make_topic : String → String → String → T.DdsTopic
  pub internal_type_discriminator : T.DdsTopic → String
  pub make_topic-discriminator :
      (name type discriminator : String)
      → internal_type_discriminator (make_topic name type discriminator) ≡ discriminator
  pub type_object_topic : T.DdsTopic
  pub type_object_topic_name : String
