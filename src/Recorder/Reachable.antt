-- ===== src/Recorder/Reachable.antt =====
-- The bag, the subscriptions and the statistics agree in every state that a recorder reaches.
use hector_recorder.Common.{
  String, true, false, ◌≡◌, refl, [], ◌∷◌, ◌++◌, arith, Result, ok, throw, if_both, null, length,
  leb, not, ◌&&◌, if◌then◌else◌, ◌||◌,
}
use mathlib.Core.Path.{subst, sym}
use hector_recorder.Common.Map
use hector_recorder.Common.Map.{Map}
use hector_recorder.Options.{StorageOptions, RecordOptions}
use hector_recorder.Throttle.{
  DoubleOps, ThrottleConfig, ThrottleState, Verdict, pass, drop, hangs, throws, throttle_pass,
}
use hector_recorder.Recorder.{
  Outside, RecorderImpl, Outcome, split_asked, closed, call_writer, Future,
}
use hector_recorder.Recorder.Log.{valid_log, count_written, only_open}
use hector_recorder.Recorder.Topics.{
  subscribe_topics, update_infos, warn_all, warn_if_new_qos_for_subscribed_topic, missing_topics,
}
use hector_recorder.Recorder.Discovery.{
  discovery_step, discovery_round, stop_discovery, waited, caught, after_round, step_from,
}
use hector_recorder.Recorder.Control.{
  new_recorder, stop, split, closed_writer, split_done, announce_split, pause, resume,
  event_thread_step, write_split_callback, update_record_options, update_throttle_configs,
}
use hector_recorder.Recorder.Incoming.{
  Incoming, on_message, update_topic_statistics, judged, int_size, stamp_of,
}
use hector_recorder.Recorder.Steps.{
  Step, records, stops, splits, pauses, resumes, discovers, announces, calls_back, updates_options,
  updates_throttle, receives, Reach, here, next, RefusesClosed,
}
use hector_recorder.Recorder.Invariant.{
  Inv, Holds, publish-Inv, plain-Inv, close-Inv, clear-Inv, write-Inv,
}
use hector_recorder.Recorder.Keeping.{subscribe_topics-Holds, warn_one-Holds, record_bag-Holds}

empty-Inv : Inv [] [] []
unfolding Map.contains Map.get_or valid_log count_written only_open
empty-Inv = record {
  tracked = λ t h. h;
  created = λ t h. cc;
  in_open = λ t h. cc;
  logged = refl;
  opened_first = refl;
  counted = λ t. refl;
}

module _ {D : Type 0} where
  announce_split-Holds : (s : RecorderImpl D) → Holds s → Holds (announce_split s)
  announce_split-Holds s v =
      if_both Holds s.write_split_has_occurred
        (record s {
          write_split_has_occurred = false;
          files = s.files ++ s.bag_split_info.opened_file ∷ [];
        })
        s v v

  closed_writer-Holds :
      (w : Result (Unit {0})) (out : Outside) (s : RecorderImpl D)
      → Holds s
      → Holds (closed_writer w out (record s { subscriptions = []; stamped_by_node = [] })).1
  closed_writer-Holds (throw e) out s v = clear-Inv s.subscriptions s.topics_info s.writer v
  closed_writer-Holds (ok u) out s v =
      let s' = record (call_writer closed s) {
        subscriptions = [];
        stamped_by_node = [];
        event_publisher_thread_should_exit = true;
      } in
      let v' = close-Inv s.subscriptions s.topics_info s.writer v in
      if_both Holds
        (s.event_thread_running && not s.event_publisher_thread_should_exit && out.woken)
        (announce_split s') s' (announce_split-Holds s' v') v'

  event_thread_step-Holds : (s : RecorderImpl D) → Holds s → Holds (event_thread_step s)
  unfolding event_thread_step
  event_thread_step-Holds s v =
      let rounds = announce_split s in
      let ended = record s { event_thread_running = false } in
      let exits = s.event_publisher_thread_should_exit in
      if_both Holds (not s.event_thread_running) s (if exits then ended else rounds) v
        (if_both Holds exits ended rounds v (announce_split-Holds s v))

  stop-Holds : (out : Outside) (s : RecorderImpl D) → Holds s → Holds (stop out s).1
  unfolding stop stop_discovery pause
  stop-Holds out s v =
      let halted = stop_discovery out s in
      let w =
        if_both Holds s.stop_flag s
          (record s { stop_flag = true; discovery_future = waited out.joined s.discovery_future }) v
          v in
      if_both (λ (r : Outcome D). Holds r.1) (not s.in_recording) (ok tt, s)
        (closed_writer out.close_writer out
          (record (pause halted) { subscriptions = []; stamped_by_node = [] }))
        v (closed_writer-Holds out.close_writer out (pause halted) w)

  after_round-Holds : (s : RecorderImpl D) → Holds s → Holds (after_round s)
  after_round-Holds s v =
      let requested = s.record_options.topics in
      if_both Holds (not (null requested) && leb (length requested) (length s.subscriptions))
        (record s { discovery_future = Future.ready }) s v v

  caught-Holds : (out : Outside) (r : Outcome D) → Holds r.1 → Holds (caught out r)
  caught-Holds out (throw e, s) v = v
  caught-Holds out (ok u, s) v =
      after_round-Holds (record s { topics_info = update_infos out.publishers_info s.topics_info })
        (publish-Inv s.subscriptions s.topics_info s.writer v out.publishers_info)

  warn_all-Holds :
      (out : Outside) (topics : Map String) (s : RecorderImpl D)
      → Holds s
      → Holds (warn_all out topics s)
  unfolding warn_all
  warn_all-Holds out [] s v = v
  warn_all-Holds out ((topic, type) ∷ topics) s v =
      warn_all-Holds out topics (warn_if_new_qos_for_subscribed_topic out topic s)
        (warn_one-Holds out topic s v)

  discovery_round-Holds :
      (out : Outside) (s : RecorderImpl D)
      → RefusesClosed out
      → Holds s
      → Holds (discovery_round out s)
  unfolding discovery_round
  discovery_round-Holds out s refuses v =
      let found = out.filter_topics s.topic_filter in
      let s' = warn_all out found s in
      caught-Holds out (subscribe_topics out (missing_topics found s'.subscriptions) s') (
        subscribe_topics-Holds out (missing_topics found s'.subscriptions) s' refuses
          (warn_all-Holds out found s v))

  discovery_step-Holds :
      (out : Outside) (f : Future) (s : RecorderImpl D)
      → RefusesClosed out
      → Holds s
      → Holds (step_from f out s)
  discovery_step-Holds out Future.invalid s refuses v = v
  discovery_step-Holds out Future.ready s refuses v = v
  discovery_step-Holds out Future.awaiting_clock s refuses v = ground arith
  discovery_step-Holds out Future.discovering s refuses v =
      if_both Holds (not out.rclcpp_ok || s.stop_flag)
        (record s { discovery_future = Future.ready }) (discovery_round out s) v
        (discovery_round-Holds out s refuses v)

  split-Holds : (r : Result (Unit {0})) (s : RecorderImpl D) → Holds s → Holds (split_done r s).1
  split-Holds (throw e) s v = v
  split-Holds (ok u) s v =
      plain-Inv s.subscriptions s.topics_info s.writer v split_asked (λ known t. refl)
        (λ known. refl) (λ t. refl) (λ b e. e) refl

  judged-Holds :
      (m : Incoming) (s : RecorderImpl D) (r : Verdict × Map (ThrottleState D))
      → Map.contains m.topic s.subscriptions ≡ true
      → Holds s
      → Holds (judged m s r).1
  unfolding update_topic_statistics
  judged-Holds m s (pass, states) h v =
      write-Inv s.subscriptions s.topics_info s.writer v m.topic m.type m.size (stamp_of m s)
        m.source_timestamp m.steady_now m.received_timestamp (int_size m.size) h
  judged-Holds m s (drop, states) h v = v
  judged-Holds m s (hangs, states) h v = v
  judged-Holds m s (throws e, states) h v = v

  on_message-Holds :
      (ops : DoubleOps D) (m : Incoming) (s : RecorderImpl D)
      → Map.contains m.topic s.subscriptions ≡ true
      → Holds s
      → Holds (on_message ops m s).1
  unfolding on_message
  on_message-Holds ops m s h v =
      let r = throttle_pass ops s.throttle_configs m.topic m.size m.system_now s.throttle_states in
      if_both (λ (r : Verdict × RecorderImpl D). Holds r.1) s.paused (drop, s) (judged m s r) v
        (judged-Holds m s r h v)

  update_options-Holds :
      (out : Outside) (options : RecordOptions) (s : RecorderImpl D)
      → Holds s
      → Holds (update_record_options out options s).1
  unfolding update_record_options stop_discovery
  update_options-Holds out options s v = ground arith

  -- Every step of a recorder, whoever makes it and whatever the outside answers, keeps the invariant:
  -- the topics with a subscription are tracked and the bag has them, no message has been written to a
  -- topic that the bag did not have, and the count that the statistics show for a topic is the number
  -- of its messages in the log of the writer, modulo 2^64.
  pub Step-Holds : (ops : DoubleOps D) {s t : RecorderImpl D} → Step ops s t → Holds s → Holds t
  unfolding split pause resume event_thread_step write_split_callback update_throttle_configs
      discovery_step
  Step-Holds ops (records out s refuses) v = record_bag-Holds out s refuses v
  Step-Holds ops (stops out s) v = stop-Holds out s v
  Step-Holds ops (splits out s) v = split-Holds out.split_bagfile s v
  Step-Holds ops (pauses s) v = v
  Step-Holds ops (resumes s) v = v
  Step-Holds ops (discovers out s refuses) v =
      discovery_step-Holds out s.discovery_future s refuses v
  Step-Holds ops (announces s) v = event_thread_step-Holds s v
  Step-Holds ops (calls_back info s) v = v
  Step-Holds ops (updates_options out options s) v = update_options-Holds out options s v
  Step-Holds ops (updates_throttle configs s) v = v
  Step-Holds ops (receives m s h) v = on_message-Holds ops m s h v

  Reach-Holds : (ops : DoubleOps D) {s t : RecorderImpl D} → Holds s → Reach ops s t → Holds t
  Reach-Holds ops v here = v
  Reach-Holds ops v (next r st) = Step-Holds ops st (Reach-Holds ops v r)

  new_recorder_empty :
      (out : Outside) (storage : StorageOptions) (options : RecordOptions)
      (configs : Map (ThrottleConfig D)) (s : RecorderImpl D)
      → new_recorder out storage options configs ≡ ok s
      → (s.subscriptions ≡ []) × (s.topics_info ≡ []) × (s.writer ≡ [])
  unfolding new_recorder
  new_recorder_empty out storage options configs s e = ground arith

  new_recorder-Holds :
      (out : Outside) (storage : StorageOptions) (options : RecordOptions)
      (configs : Map (ThrottleConfig D)) (s : RecorderImpl D)
      → new_recorder out storage options configs ≡ ok s
      → Holds s
  new_recorder-Holds out storage options configs s e =
      let (subs, infos, calls) = new_recorder_empty out storage options configs s e in
      subst (λ xs. Inv xs s.topics_info s.writer) (sym subs)
        (subst (λ ys. Inv [] ys s.writer) (sym infos)
          (subst (λ zs. Inv [] [] zs) (sym calls) empty-Inv))

  -- In every state that a new recorder reaches by steps in any order, with a writer that takes no topic
  -- while no bag is open: as long as a topic has a subscription, it is tracked, a bag is open and was
  -- given the topic; every call of the writer that created a topic or wrote a message came while a bag
  -- was open, and every message went to a topic that was created in that bag before; and the message
  -- count that the statistics show for a topic is the number of its messages in the log of the writer,
  -- modulo 2^64.
  pub reachable-Inv :
      (ops : DoubleOps D) (out : Outside) (storage : StorageOptions) (options : RecordOptions)
      (configs : Map (ThrottleConfig D)) {s t : RecorderImpl D}
      → new_recorder out storage options configs ≡ ok s
      → Reach ops s t
      → Inv t.subscriptions t.topics_info t.writer
  reachable-Inv ops out storage options configs e r =
      Reach-Holds ops (new_recorder-Holds out storage options configs _ e) r
