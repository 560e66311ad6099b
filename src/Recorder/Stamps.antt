-- ===== src/Recorder/Stamps.antt =====
-- The stamps of messages: the callbacks of RecorderImpl::create_subscription.
use hector_recorder.Common.{◌≡◌}
use hector_recorder.Common.Map.{Map}
use hector_recorder.Recorder.{RecorderImpl}
use hector_recorder.Recorder.Incoming.{Incoming}

module _ {D : Type 0} where
  -- What a callback reads of the state to write a message.
  record Alike (s t : RecorderImpl D) : Type 0 where
    paused : t.paused ≡ s.paused
    configs : t.throttle_configs ≡ s.throttle_configs
    states : t.throttle_states ≡ s.throttle_states
    stamps : t.stamped_by_node ≡ s.stamped_by_node
    calls : t.writer ≡ s.writer
