-- ===== src/External/Samples.antt =====
-- RtpsPayloadData of ddspipe_core: the fields of a received sample that the program reads.
use fast_dds_spy.External.Guids.{Guids, Guid, InstanceHandle}
use fast_dds_spy.External.DynTypes.{DynTypes, Payload}

pub record Sample ⦃G : Guids⦄ ⦃D : DynTypes⦄ (Time : Type 0) : Type 0 where
  pub source_guid : Guid
  pub instance_handle : InstanceHandle
  pub source_timestamp : Time
  pub payload : Payload
