-- ===== src/Recorder/Opening.antt =====
-- record() that returns has opened the bag: RecorderImpl::record and what it subscribes to.
use hector_recorder.Common.{
  String, Bool, true, false, ◌≡◌, ◌∙◌, [], ◌∷◌, arith, Result, ok, throw, if_both,
}
use hector_recorder.Common.Map.{Map}
use hector_recorder.Options.{Qos}
use hector_recorder.Recorder.{
  Outside, RecorderImpl, Outcome, topic_created, topic_removed, opened, call_writer,
}
use hector_recorder.Recorder.Log.{is_open, is_open_after-append}
use hector_recorder.Recorder.Topics.{
  subscribe_topic, subscribe_topics, subscribed, topic_in_writer, offered_qos_profiles_for_topic,
  type_description_hash_for_topic, subscription_qos_for_topic,
}
use hector_recorder.Recorder.Discovery.{start_discovery}
use hector_recorder.Recorder.Control.{
  record_bag, with_writer, with_open_writer, subscribe_at_start, track_unknown,
  discover_unless_disabled,
}
use hector_recorder.Recorder.Lifecycle.{then_do_keeps}

module _ {D : Type 0} where
  abbrev IsOpen : RecorderImpl D → Type 0
  IsOpen s = is_open s.writer ≡ true

  subscribed-IsOpen :
      (r : Result Bool) (topic : String) (qos : Qos) (s : RecorderImpl D)
      → IsOpen s
      → IsOpen (subscribed r topic qos s).1
  subscribed-IsOpen (throw e) topic qos s v = v
  subscribed-IsOpen (ok true) topic qos s v = v
  subscribed-IsOpen (ok false) topic qos s v =
      is_open_after-append false s.writer (topic_removed topic) ∙ v

  topic_in_writer-IsOpen :
      (w : Result (Unit {0})) (out : Outside) (topic type : String) (s : RecorderImpl D)
      → IsOpen s
      → IsOpen (topic_in_writer w out topic type s).1
  topic_in_writer-IsOpen (throw e) out topic type s v = v
  topic_in_writer-IsOpen (ok u) out topic type s v =
      let infos = out.publishers_info topic in
      let c =
        topic_created topic type s.serialization_format (offered_qos_profiles_for_topic infos)
          (type_description_hash_for_topic out.stringify_hash infos) in
      let s' = call_writer c s in
      let qos = subscription_qos_for_topic out topic s' in
      subscribed-IsOpen (out.create_subscription topic qos) topic qos s'
        (is_open_after-append false s.writer c ∙ v)

  subscribe_topics-IsOpen :
      (out : Outside) (topics : Map String) (s : RecorderImpl D)
      → IsOpen s
      → IsOpen (subscribe_topics out topics s).1
  unfolding subscribe_topics subscribe_topic
  subscribe_topics-IsOpen out [] s v = v
  subscribe_topics-IsOpen out ((topic, type) ∷ topics) s v =
      then_do_keeps IsOpen (subscribe_topic out topic type s) (λ t. subscribe_topics out topics t)
        (topic_in_writer-IsOpen (out.create_topic (is_open s.writer) topic) out topic type s v)
        (λ t w. subscribe_topics-IsOpen out topics t w)

  subscribe_at_start-IsOpen :
      (out : Outside) (s : RecorderImpl D) → IsOpen s → IsOpen (subscribe_at_start out s).1
  unfolding subscribe_at_start
  subscribe_at_start-IsOpen out s v =
      if_both (λ (r : Outcome D). IsOpen r.1) s.record_options.use_sim_time (ok tt, s)
        (subscribe_topics out (out.filter_topics s.topic_filter) s) v
        (subscribe_topics-IsOpen out (out.filter_topics s.topic_filter) s v)

  finish_start-IsOpen :
      (t : RecorderImpl D) → IsOpen t → IsOpen (discover_unless_disabled (track_unknown t))
  unfolding discover_unless_disabled track_unknown start_discovery
  finish_start-IsOpen t v = ground arith

  with_writer-IsOpen :
      (w : Result (Unit {0})) (out : Outside) (s : RecorderImpl D)
      → (with_writer w out s).0 ≡ ok tt
      → IsOpen (with_writer w out s).1
  unfolding with_writer
  with_writer-IsOpen (throw e) out s h = cc
  with_writer-IsOpen (ok u) out s h =
      then_do_keeps IsOpen (subscribe_at_start out (with_open_writer s))
        (λ t. (ok tt, discover_unless_disabled (track_unknown t)))
        (subscribe_at_start-IsOpen out (with_open_writer s) (
          unfold with_open_writer in
          is_open_after-append false s.writer
            (opened s.storage_options.uri s.record_options.rmw_serialization_format)))
        finish_start-IsOpen

  -- A record() of a recorder that is not in recording leaves a bag open if it returns, whatever the topics
  -- that it subscribes to and those that it takes out of the bag again.
  pub record_bag-IsOpen :
      (out : Outside) (s : RecorderImpl D)
      → s.in_recording ≡ false
      → (record_bag out s).0 ≡ ok tt
      → is_open (record_bag out s).1.writer ≡ true
  unfolding record_bag
  record_bag-IsOpen out s idle h =
      let s' = record s {
        in_recording = true;
        paused = s.record_options.start_paused;
        topic_qos_profile_overrides = s.record_options.topic_qos_profile_overrides;
      } in
      ground (arith, with_writer-IsOpen (out.open_writer s.storage_options) out s')
