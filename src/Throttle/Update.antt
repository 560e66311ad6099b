-- ===== src/Throttle/Update.antt =====
-- What update_throttle_configs does to the states of the topics.
use hector_recorder.Common.{◌≡◌, String, [], ◌∷◌, none, arith, eq_iff, if◌then◌else◌}
use hector_recorder.Common.Map
use hector_recorder.Common.Map.{Map}
use hector_recorder.Throttle.{ThrottleConfig, ThrottleState, retain_configured}

module _ {D : Type 0} where
  -- After a live update of the configuration, a topic that the new configuration throttles has the
  -- state it had, and any other topic has none.
  pub lookup-retain_configured :
      (configs : Map (ThrottleConfig D)) (states : Map (ThrottleState D)) (topic : String)
      → Map.lookup topic (retain_configured configs states)
        ≡ (if Map.contains topic configs then Map.lookup topic states else none)
  unfolding retain_configured Map.lookup
  lookup-retain_configured configs [] topic = ground arith
  lookup-retain_configured configs ((i, s) ∷ states) topic =
      ground (arith, eq_iff i topic, lookup-retain_configured configs states topic)
