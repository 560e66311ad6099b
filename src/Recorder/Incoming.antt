-- ===== src/Recorder/Incoming.antt =====
-- The subscription callbacks that create_subscription of RecorderImpl makes, with
-- update_topic_statistics. The branch for Windows is left out.
use hector_recorder.Common.{ℕ, pos, to_int32, to_uint64, String, true, false, if◌then◌else◌}
use hector_recorder.Common.Map
use hector_recorder.Common.Map.{Map}
use hector_recorder.Throttle.{
  DoubleOps, ThrottleState, Verdict, pass, drop, hangs, throws, throttle_pass,
}
use hector_recorder.TopicInformation.{new_information, update_statistics}
use hector_recorder.Recorder.{RecorderImpl, written, call_writer}

-- A message as it comes: its size, its stamps, and the readings of the clocks when it is handled (the
-- system clock of the throttle, the steady clock of the statistics, the clock of the node).
pub record Incoming : Type 0 where
  pub topic : String
  pub type : String
  pub size : ℕ
  pub received_timestamp : ℕ
  pub source_timestamp : ℕ
  pub system_now : ℕ
  pub steady_now : ℕ
  pub node_now : ℕ

-- The size on its way through the `int` parameter of update_topic_statistics.
abbrev pub int_size : ℕ → ℕ
int_size n = to_uint64 (to_int32 (pos n))

module _ {D : Type 0} where
  unfoldable pub update_topic_statistics : Incoming → RecorderImpl D → RecorderImpl D
  update_topic_statistics m s =
      let info = Map.get_or m.topic new_information s.topics_info in
      record s {
        first_stamp = if s.first_msg_received then s.first_stamp else m.node_now;
        first_msg_received = true;
        topics_info =
            Map.insert m.topic
              (update_statistics m.steady_now m.received_timestamp (int_size m.size) info)
              s.topics_info;
      }

  -- The callback was chosen when the subscription was made.
  abbrev pub stamp_of : Incoming → RecorderImpl D → ℕ
  stamp_of m s =
      if Map.get_or m.topic false s.stamped_by_node then m.node_now else m.received_timestamp

  -- What follows throttle_pass. `hangs` and `throws` keep the callback from going on.
  abbrev pub judged :
      Incoming → RecorderImpl D → Verdict × Map (ThrottleState D) → Verdict × RecorderImpl D
  judged m s (pass, states) =
      let s' = update_topic_statistics m (record s { throttle_states = states }) in
      (pass, call_writer (written m.topic m.type m.size (stamp_of m s) m.source_timestamp) s')
  judged m s (drop, states) = (drop, record s { throttle_states = states })
  judged m s (hangs, states) = (hangs, record s { throttle_states = states })
  judged m s (throws e, states) = (throws e, record s { throttle_states = states })

  unfoldable pub on_message : DoubleOps D → Incoming → RecorderImpl D → Verdict × RecorderImpl D
  unfolding update_topic_statistics
  on_message ops m s =
      if s.paused
      then (drop, s)
      else judged m s
          (throttle_pass ops s.throttle_configs m.topic m.size m.system_now s.throttle_states)
