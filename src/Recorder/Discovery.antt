-- ===== src/Recorder/Discovery.antt =====
-- Topic discovery of RecorderImpl: start_discovery, stop_discovery, and topics_discovery, which runs
-- in a thread of its own and is cut into the steps of its loops.
use hector_recorder.Common.{
  Bool, true, false, not, ◌&&◌, ◌||◌, ok, throw, length, leb, null, if◌then◌else◌,
}
use hector_recorder.Recorder.{
  Outside, RecorderImpl, Outcome, Future, invalid, awaiting_clock, discovering, ready,
}
use hector_recorder.Recorder.Topics.{missing_topics, warn_all, subscribe_topics, update_infos}

-- discovery_future_.wait_for
abbrev pub waited : Bool → Future → Future
waited joined invalid = invalid
waited joined awaiting_clock = if joined then ready else awaiting_clock
waited joined discovering = if joined then ready else discovering
waited joined ready = ready

-- Whether the thread is still there.
abbrev pub is_live : Future → Bool
is_live invalid = false
is_live awaiting_clock = true
is_live discovering = true
is_live ready = false

module _ {D : Type 0} where
  -- The launch of the thread: it waits for /clock first where sim time is used.
  abbrev pub launch : RecorderImpl D → RecorderImpl D
  launch s = record s {
    discovery_future = if s.record_options.use_sim_time then awaiting_clock else discovering;
  }

  unfoldable pub start_discovery : RecorderImpl D → RecorderImpl D
  start_discovery s =
      if s.stop_flag
      then record s { stop_flag = false }
      else launch (record s { stop_flag = false })

  unfoldable pub stop_discovery : Outside → RecorderImpl D → RecorderImpl D
  stop_discovery out s =
      if s.stop_flag
      then s
      else record s { stop_flag = true; discovery_future = waited out.joined s.discovery_future }

  abbrev pub after_round : RecorderImpl D → RecorderImpl D
  after_round s =
      let requested = s.record_options.topics in
      if not (null requested) && leb (length requested) (length s.subscriptions)
      then record s { discovery_future = ready }
      else s

  -- An exception in a round is logged, and the loop goes on.
  abbrev pub caught : Outside → Outcome D → RecorderImpl D
  caught out (throw e, s) = s
  caught out (ok u, s) =
      after_round (record s { topics_info = update_infos out.publishers_info s.topics_info })

  -- A round of the main loop.
  unfoldable pub discovery_round : Outside → RecorderImpl D → RecorderImpl D
  unfolding warn_all missing_topics subscribe_topics
  discovery_round out s =
      let found = out.filter_topics s.topic_filter in
      let s' = warn_all out found s in
      caught out (subscribe_topics out (missing_topics found s'.subscriptions) s')

  -- A step of the thread, where it is: a test of the condition of its loop, with the body.
  abbrev pub step_from : Future → Outside → RecorderImpl D → RecorderImpl D
  step_from invalid out s = s
  step_from ready out s = s
  step_from awaiting_clock out s =
      if not out.rclcpp_ok || s.stop_flag
      then record s { discovery_future = ready }
      else if out.clock_started
      then record s { discovery_future = discovering }
      else s
  step_from discovering out s =
      if not out.rclcpp_ok || s.stop_flag
      then record s { discovery_future = ready }
      else discovery_round out s

  unfoldable pub discovery_step : Outside → RecorderImpl D → RecorderImpl D
  unfolding discovery_round
  discovery_step out s = step_from s.discovery_future out s
