-- ===== src/Recorder/Keeping.antt =====
-- Subscribing and record() keep what Invariant states.
use hector_recorder.Common.{
  ap, ◌∙◌, Bool-cases, inl, inr, String, Bool, true, false, ◌≡◌, refl, [], ◌∷◌, arith, Result, ok,
  throw, is_empty, if_both, if◌then◌else◌,
}
use hector_recorder.Common.Map.{Map}
use text.Mathlib.TextPositions.{eq_refl}
use hector_recorder.Options.{Qos}
use hector_recorder.Recorder.{Outside, RecorderImpl, Outcome, topic_created, opened, call_writer}
use hector_recorder.Recorder.Log.{
  known_after, no_topics, known_after-append, is_open, is_open_after-append,
}
use hector_recorder.Recorder.Topics.{
  subscribe_topic, subscribe_topics, subscribed, topic_in_writer, offered_qos_profiles_for_topic,
  type_description_hash_for_topic, subscription_qos_for_topic, warn_if_new_qos_for_subscribed_topic,
  unknown_topics,
}
use hector_recorder.Recorder.Discovery.{start_discovery, launch}
use hector_recorder.Recorder.Control.{
  record_bag, with_writer, with_open_writer, subscribe_at_start, track_unknown,
  discover_unless_disabled,
}
use hector_recorder.Recorder.Steps.{RefusesClosed}
use hector_recorder.Recorder.Lifecycle.{then_do_keeps}
use hector_recorder.Recorder.Invariant.{
  Holds, create-Inv, remove-Inv, subscribe-Inv, track-Inv, plain-Inv,
}

module _ {D : Type 0} where
  pub subscribed-Holds :
      (r : Result Bool) (topic : String) (qos : Qos) (s : RecorderImpl D)
      → known_after no_topics s.writer topic ≡ true
      → is_open s.writer ≡ true
      → Holds s
      → Holds (subscribed r topic qos s).1
  subscribed-Holds (throw e) topic qos s known o v = v
  subscribed-Holds (ok true) topic qos s known o v =
      subscribe-Inv s.subscriptions s.topics_info s.writer v topic qos known o
  subscribed-Holds (ok false) topic qos s known o v =
      remove-Inv s.subscriptions s.topics_info s.writer v topic

  pub topic_in_writer-Holds :
      (w : Result (Unit {0})) (out : Outside) (topic type : String) (s : RecorderImpl D)
      → is_open s.writer ≡ true
      → Holds s
      → Holds (topic_in_writer w out topic type s).1
  topic_in_writer-Holds (throw e) out topic type s o v = v
  topic_in_writer-Holds (ok u) out topic type s o v =
      let infos = out.publishers_info topic in
      let profiles = offered_qos_profiles_for_topic infos in
      let hash = type_description_hash_for_topic out.stringify_hash infos in
      let c = topic_created topic type s.serialization_format profiles hash in
      let s' = call_writer c s in
      let qos = subscription_qos_for_topic out topic s' in
      subscribed-Holds (out.create_subscription topic qos) topic qos s'
        (ground (arith, known_after-append no_topics s.writer c topic, eq_refl topic))
        (ground (arith, is_open_after-append false s.writer c, o))
        (create-Inv s.subscriptions s.topics_info s.writer v topic type s.serialization_format
          profiles hash o)

  pub subscribe_topic-Holds :
      (out : Outside) (topic type : String) (s : RecorderImpl D)
      → RefusesClosed out
      → Holds s
      → Holds (subscribe_topic out topic type s).1
  unfolding subscribe_topic
  subscribe_topic-Holds out topic type s refuses v = elim (Bool-cases (is_open s.writer)) [
    | inl o ↦ topic_in_writer-Holds (out.create_topic (is_open s.writer) topic) out topic type s o v
    | inr n ↦
        let e : out.create_topic (is_open s.writer) topic ≡ throw (refuses topic).0 =
          ap (λ (b : Bool). out.create_topic b topic) n ∙ (refuses topic).1 in
        rw e v
  ]

  pub subscribe_topics-Holds :
      (out : Outside) (topics : Map String) (s : RecorderImpl D)
      → RefusesClosed out
      → Holds s
      → Holds (subscribe_topics out topics s).1
  unfolding subscribe_topics
  subscribe_topics-Holds out [] s refuses v = v
  subscribe_topics-Holds out ((topic, type) ∷ topics) s refuses v =
      then_do_keeps Holds (subscribe_topic out topic type s) (λ t. subscribe_topics out topics t)
        (subscribe_topic-Holds out topic type s refuses v)
        (λ t w. subscribe_topics-Holds out topics t refuses w)

  pub subscribe_at_start-Holds :
      (out : Outside) (s : RecorderImpl D)
      → RefusesClosed out
      → Holds s
      → Holds (subscribe_at_start out s).1
  unfolding subscribe_at_start
  subscribe_at_start-Holds out s refuses v =
      if_both (λ (r : Outcome D). Holds r.1) s.record_options.use_sim_time (ok tt, s)
        (subscribe_topics out (out.filter_topics s.topic_filter) s) v
        (subscribe_topics-Holds out (out.filter_topics s.topic_filter) s refuses v)

  pub finish_start-Holds :
      (t : RecorderImpl D) → Holds t → Holds (discover_unless_disabled (track_unknown t))
  unfolding discover_unless_disabled track_unknown start_discovery
  finish_start-Holds t v =
      let t' = track_unknown t in
      let v' =
        track-Inv t.subscriptions t.topics_info t.writer v
          (unknown_topics t.record_options.topics t.subscriptions) in
      if_both Holds t.record_options.is_discovery_disabled t' (start_discovery t') v' (
        if_both Holds t.stop_flag (record t' { stop_flag = false })
          (launch (record t' { stop_flag = false })) v' v')

  pub with_writer-Holds :
      (w : Result (Unit {0})) (out : Outside) (s : RecorderImpl D)
      → RefusesClosed out
      → Holds s
      → Holds (with_writer w out s).1
  unfolding with_writer
  with_writer-Holds (throw e) out s refuses v = v
  with_writer-Holds (ok u) out s refuses v =
      then_do_keeps Holds (subscribe_at_start out (with_open_writer s))
        (λ t. (ok tt, discover_unless_disabled (track_unknown t)))
        (subscribe_at_start-Holds out (with_open_writer s) refuses (
          unfold with_open_writer in
          plain-Inv s.subscriptions s.topics_info s.writer v
            (opened s.storage_options.uri s.record_options.rmw_serialization_format)
            (λ known t. refl) (λ known. refl) (λ t. refl) (λ b e. refl) refl))
        finish_start-Holds

  pub warn_one-Holds :
      (out : Outside) (topic : String) (s : RecorderImpl D)
      → Holds s
      → Holds (warn_if_new_qos_for_subscribed_topic out topic s)
  unfolding warn_if_new_qos_for_subscribed_topic
  warn_one-Holds out topic s v = ground arith

  pub record_bag-Holds :
      (out : Outside) (s : RecorderImpl D)
      → RefusesClosed out
      → Holds s
      → Holds (record_bag out s).1
  unfolding record_bag
  record_bag-Holds out s refuses v =
      let s' = record s {
        in_recording = true;
        paused = s.record_options.start_paused;
        topic_qos_profile_overrides = s.record_options.topic_qos_profile_overrides;
      } in
      let opening = with_writer (out.open_writer s.storage_options) out s' in
      let missing : Outcome D = (throw "No serialization format specified!", s') in
      let P : Outcome D → Type 0 = λ r. Holds r.1 in
      let format = is_empty s.record_options.rmw_serialization_format in
      if_both P s.in_recording (ok tt, s) (if format then missing else opening) v
        (if_both P format missing opening v
          (with_writer-Holds (out.open_writer s.storage_options) out s' refuses v))
