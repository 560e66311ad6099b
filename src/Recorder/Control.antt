-- ===== src/Recorder/Control.antt =====
-- The control operations of RecorderImpl: its constructor, record, stop, split, pause, resume, the
-- live updates, the event thread and the getters.
use hector_recorder.Common.{
  ℕ, ◌+◌, ◌%◌, ◌^◌, ℤ, pos, sub_ℕ, String, Bool, true, false, not, ◌&&◌, List, [], ◌∷◌, ◌++◌,
  Result, ok, throw, ◌>>=◌, is_empty, if◌then◌else◌,
}
use hector_recorder.Common.Map.{Map}
use hector_recorder.Options.{StorageOptions, RecordOptions}
use hector_recorder.Throttle.{ThrottleConfig, retain_configured}
use hector_recorder.TopicInformation.{TopicInformation}
use hector_recorder.Recorder.{
  Outside, RecorderImpl, Outcome, SplitInfo, opened, closed, split_asked, invalid, ◌then_do◌,
  call_writer,
}
use hector_recorder.Recorder.Topics.{unknown_topics, track_all, subscribe_topics}
use hector_recorder.Recorder.Discovery.{start_discovery, stop_discovery, launch, is_live}

unfoldable pub expand_all : (String → Result String) → List String → Result (List String)
expand_all expand [] = ok []
expand_all expand (name ∷ names) = do
  expanded ← expand name
  rest ← expand_all expand names
  ok (expanded ∷ rest)

abbrev no_split : SplitInfo
no_split = record { closed_file = ""; opened_file = "" }

abbrev pub total_size : Map TopicInformation → ℕ
total_size [] = 0
total_size ((topic, info) ∷ infos) = (info.size + total_size infos) % 2 ^ 64

module _ {D : Type 0} where
  abbrev fresh :
      StorageOptions → RecordOptions → RecordOptions → Map (ThrottleConfig D) → RecorderImpl D
  fresh storage filter expanded configs = record {
    storage_options = storage;
    record_options = expanded;
    topic_filter = filter;
    subscriptions = [];
    stamped_by_node = [];
    topics_info = [];
    topics_warned_about_incompatibility = [];
    serialization_format = "";
    topic_qos_profile_overrides = [];
    in_recording = false;
    paused = false;
    stop_flag = false;
    discovery_future = invalid;
    event_thread_running = false;
    event_publisher_thread_should_exit = false;
    write_split_has_occurred = false;
    bag_split_info = no_split;
    files = [];
    first_msg_received = false;
    first_stamp = 0;
    throttle_configs = configs;
    throttle_states = [];
    writer = [];
  }

  -- RecorderImpl::RecorderImpl. The filter is made from the options as they came.
  unfoldable pub new_recorder :
      Outside → StorageOptions → RecordOptions → Map (ThrottleConfig D) → Result (RecorderImpl D)
  unfolding expand_all
  new_recorder out storage options configs =
      if options.use_sim_time && options.is_discovery_disabled
      then throw
          "use_sim_time and is_discovery_disabled both set, but are incompatible settings. The /clock topic needs to be discovered to record with sim time."
      else do
        topics ← expand_all out.expand_name options.topics
        exclude_topics ← expand_all out.expand_name options.exclude_topics
        services ← expand_all out.expand_name options.services
        events ← expand_all out.expand_name options.exclude_service_events
        ok (
            fresh storage options
              (record options {
                topics = topics;
                exclude_topics = exclude_topics;
                services = services;
                exclude_service_events = events;
              })
              configs)

  unfoldable pub track_unknown : RecorderImpl D → RecorderImpl D
  unfolding unknown_topics track_all
  track_unknown s = record s {
    topics_info = track_all (unknown_topics s.record_options.topics s.subscriptions) s.topics_info;
  }

  unfoldable pub discover_unless_disabled : RecorderImpl D → RecorderImpl D
  unfolding start_discovery
  discover_unless_disabled s =
      if s.record_options.is_discovery_disabled then s else start_discovery s

  unfoldable pub subscribe_at_start : Outside → RecorderImpl D → Outcome D
  unfolding subscribe_topics
  subscribe_at_start out s =
      if s.record_options.use_sim_time
      then (ok tt, s)
      else subscribe_topics out (out.filter_topics s.topic_filter) s

  -- The state once the writer is open and the event thread runs.
  unfoldable pub with_open_writer : RecorderImpl D → RecorderImpl D
  with_open_writer s =
      let format = s.record_options.rmw_serialization_format in
      record (call_writer (opened s.storage_options.uri format) s) {
        files = s.files ++ s.storage_options.uri ∷ [];
        event_thread_running = true;
        serialization_format = format;
      }

  unfoldable pub with_writer : Result (Unit {0}) → Outside → RecorderImpl D → Outcome D
  unfolding track_unknown discover_unless_disabled subscribe_at_start with_open_writer
  with_writer (throw e) out s = (throw e, s)
  with_writer (ok u) out s =
      (subscribe_at_start out (with_open_writer s))
      then_do (λ t. (ok tt, discover_unless_disabled (track_unknown t)))

  unfoldable pub record_bag : Outside → RecorderImpl D → Outcome D
  unfolding with_writer
  record_bag out s =
      let s' = record s {
        in_recording = true;
        paused = s.record_options.start_paused;
        topic_qos_profile_overrides = s.record_options.topic_qos_profile_overrides;
      } in
      if s.in_recording
      then (ok tt, s)
      else if is_empty s.record_options.rmw_serialization_format
      then (throw "No serialization format specified!", s')
      else with_writer (out.open_writer s.storage_options) out s'

  unfoldable pub pause : RecorderImpl D → RecorderImpl D
  pause s = record s { paused = true }

  unfoldable pub resume : RecorderImpl D → RecorderImpl D
  resume s = record s { paused = false }

  -- The body of the event thread, once it is awake: the split is announced and its file noted.
  abbrev pub announce_split : RecorderImpl D → RecorderImpl D
  announce_split s =
      if s.write_split_has_occurred
      then record s {
        write_split_has_occurred = false;
        files = s.files ++ s.bag_split_info.opened_file ∷ [];
      }
      else s

  -- A round of the event thread: the test of its loop, and what it does when it can wake.
  unfoldable pub event_thread_step : RecorderImpl D → RecorderImpl D
  event_thread_step s =
      if not s.event_thread_running
      then s
      else if s.event_publisher_thread_should_exit
      then record s { event_thread_running = false }
      else announce_split s

  -- The callback that the writer calls after a split.
  unfoldable pub write_split_callback : SplitInfo → RecorderImpl D → RecorderImpl D
  write_split_callback info s = record s { bag_split_info = info; write_split_has_occurred = true }

  abbrev pub closed_writer : Result (Unit {0}) → Outside → RecorderImpl D → Outcome D
  closed_writer (throw e) out s = (throw e, s)
  closed_writer (ok u) out s =
      let s' = record (call_writer closed s) { event_publisher_thread_should_exit = true } in
      let waits = s.event_thread_running && not s.event_publisher_thread_should_exit in
      let t = if waits && out.woken then announce_split s' else s' in
      (ok tt, record t { event_thread_running = false; in_recording = false })

  unfoldable pub stop : Outside → RecorderImpl D → Outcome D
  unfolding stop_discovery pause
  stop out s =
      if not s.in_recording
      then (ok tt, s)
      else closed_writer out.close_writer out
          (record (pause (stop_discovery out s)) { subscriptions = []; stamped_by_node = [] })

  abbrev pub split_done : Result (Unit {0}) → RecorderImpl D → Outcome D
  split_done (throw e) s = (throw e, s)
  split_done (ok u) s = (ok tt, call_writer split_asked s)

  unfoldable pub split : Outside → RecorderImpl D → Outcome D
  split out s = split_done out.split_bagfile s

  -- The state in which update_record_options leaves the recorder, and whether it comes to return: the
  -- assignment to discovery_future_ waits for the old thread, which the cleared flag lets run on.
  unfoldable pub update_record_options :
      Outside → RecordOptions → RecorderImpl D → Bool × RecorderImpl D
  unfolding stop_discovery
  update_record_options out options s =
      let s' = stop_discovery out s in
      (
        not (is_live s'.discovery_future),
        launch (record s' { record_options = options; topic_filter = options; stop_flag = false }),
      )

  unfoldable pub update_throttle_configs : Map (ThrottleConfig D) → RecorderImpl D → RecorderImpl D
  unfolding retain_configured
  update_throttle_configs configs s = record s {
    throttle_configs = configs;
    throttle_states = retain_configured configs s.throttle_states;
  }

  unfoldable pub get_bagfile_size : RecorderImpl D → ℕ
  get_bagfile_size s = total_size s.topics_info

  -- `now` is the reading of the node's clock.
  unfoldable pub get_bagfile_duration : ℕ → RecorderImpl D → ℤ
  get_bagfile_duration now s = if s.first_msg_received then sub_ℕ now s.first_stamp else pos 0
