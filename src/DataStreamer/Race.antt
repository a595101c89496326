-- ===== src/DataStreamer/Race.antt =====
-- add_data reads whether to call under the mutex, and the callback itself after it.
use fast_dds_spy.Prelude.{true, ◌≡◌, arith, Option-cases, inl, inr}
use fast_dds_spy.Order.{Order}
use fast_dds_spy.External.Guids.{Guids, Guid, InstanceHandle}
use fast_dds_spy.External.DynTypes.{DynTypes, DynamicType}
use fast_dds_spy.External.Samples.{Sample}
use fast_dds_spy.External.Topics.{Topics, DdsTopic}
use fast_dds_spy.External.Times.{Times, DataTime}
use fast_dds_spy.DataStreamer.{DataStreamer, called, null_call, should_call, deliver, deactivate}
use fast_dds_spy.DataStreamer.Invariant.{IsReady}

module _ ⦃G : Guids⦄ ⦃go : Order Guid⦄ ⦃ho : Order InstanceHandle⦄ ⦃D : DynTypes⦄ ⦃T : Topics⦄
    ⦃to : Order DdsTopic⦄ ⦃M : Times⦄ {Callback : Type 0} where
  -- On a ready streamer, a sample that is due reaches the callback if nothing comes in between. If
  -- deactivate() comes between the test and the call, the call goes through a null pointer.
  pub deactivate_before_call :
      (s : DataStreamer Callback) (topic : DdsTopic) (dyn_type : DynamicType)
      (sample : Sample DataTime)
      → IsReady s
      → should_call s topic ≡ true
      → ((callback : Callback) × (deliver s (should_call s topic) topic dyn_type sample
            ≡ called callback topic dyn_type sample))
        × (deliver (deactivate s) (should_call s topic) topic dyn_type sample ≡ null_call)
  unfolding deliver deactivate
  deactivate_before_call s topic dyn_type sample v due = elim (Option-cases s.callback) [
    | inl e ↦ absurd (ground arith)
    | inr (callback, e) ↦ ((callback, rw due (rw (e, deliver))), rw due)
  ]
