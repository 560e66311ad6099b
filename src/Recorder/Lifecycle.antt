-- ===== src/Recorder/Lifecycle.antt =====
-- How record of RecorderImpl leaves its flags, on every branch, and what subscribing does not touch.
use hector_recorder.Common.{
  String, Bool, true, false, ◌≡◌, ◌∙◌, refl, [], ◌∷◌, arith, Result, ok, throw,
}
use hector_recorder.Common.Map.{Map}
use hector_recorder.Recorder.{Outside, RecorderImpl, Outcome, ◌then_do◌}
use hector_recorder.Recorder.Topics.{subscribe_topic, subscribe_topics}
use hector_recorder.Recorder.Discovery.{start_discovery}
use hector_recorder.Recorder.Control.{
  record_bag, with_open_writer, with_writer, subscribe_at_start, track_unknown,
  discover_unless_disabled,
}

-- What subscribing leaves alone.
pub record SameControl {D : Type 0} (s t : RecorderImpl D) : Type 0 where
  pub in_recording : t.in_recording ≡ s.in_recording
  pub paused : t.paused ≡ s.paused
  pub stop_flag : t.stop_flag ≡ s.stop_flag
  pub discovery_future : t.discovery_future ≡ s.discovery_future
  pub event_thread_running : t.event_thread_running ≡ s.event_thread_running
  pub should_exit : t.event_publisher_thread_should_exit ≡ s.event_publisher_thread_should_exit
  pub record_options : t.record_options ≡ s.record_options
  pub files : t.files ≡ s.files

module _ {D : Type 0} where
  SameControl-refl : (s : RecorderImpl D) → SameControl s s
  SameControl-refl s = ground arith

  SameControl-trans : (s t u : RecorderImpl D) → SameControl s t → SameControl t u → SameControl s u
  SameControl-trans s t u p q = ground arith

  subscribe_topic-SameControl :
      (out : Outside) (topic type : String) (s : RecorderImpl D)
      → SameControl s (subscribe_topic out topic type s).1
  unfolding subscribe_topic
  subscribe_topic-SameControl out topic type s = ground arith

  pub then_do_keeps {ℓ} :
      (P : RecorderImpl D → Type ℓ) (r : Outcome D) (f : RecorderImpl D → Outcome D)
      → P r.1
      → ((t : RecorderImpl D) → P t → P (f t).1)
      → P (r then_do f).1
  then_do_keeps P (ok u, t) f p q = q t p
  then_do_keeps P (throw e, t) f p q = p

  pub subscribe_topics-SameControl :
      (out : Outside) (topics : Map String) (s : RecorderImpl D)
      → SameControl s (subscribe_topics out topics s).1
  unfolding subscribe_topics
  subscribe_topics-SameControl out [] s = SameControl-refl s
  subscribe_topics-SameControl out ((topic, type) ∷ topics) s =
      then_do_keeps (SameControl s) (subscribe_topic out topic type s)
        (λ t. subscribe_topics out topics t) (subscribe_topic-SameControl out topic type s)
        (λ t p. SameControl-trans s t _ p (subscribe_topics-SameControl out topics t))

  pub subscribe_at_start-SameControl :
      (out : Outside) (s : RecorderImpl D) → SameControl s (subscribe_at_start out s).1
  unfolding subscribe_at_start
  subscribe_at_start-SameControl out s =
      ground (arith, subscribe_topics-SameControl out (out.filter_topics s.topic_filter) s)

  -- The two flags that say what state the recorder shows.
  abbrev Flags : Bool → Bool → RecorderImpl D → Type 0
  Flags recording paused t = (t.in_recording ≡ recording) × (t.paused ≡ paused)

  finish_start-Flags :
      (recording paused : Bool) (t : RecorderImpl D)
      → Flags recording paused t
      → Flags recording paused (discover_unless_disabled (track_unknown t))
  unfolding discover_unless_disabled track_unknown start_discovery
  finish_start-Flags recording paused t h = ground arith

  with_writer-Flags :
      (w : Result (Unit {0})) (out : Outside) (recording paused : Bool) (s : RecorderImpl D)
      → Flags recording paused s
      → Flags recording paused (with_writer w out s).1
  unfolding with_writer
  with_writer-Flags (throw e) out recording paused s h = h
  with_writer-Flags (ok u) out recording paused s h =
      then_do_keeps (Flags recording paused) (subscribe_at_start out (with_open_writer s))
        (λ t. (ok tt, discover_unless_disabled (track_unknown t)))
        (let same = subscribe_at_start-SameControl out (with_open_writer s) in
          (same.in_recording ∙ h.0, same.paused ∙ h.1))
        (finish_start-Flags recording paused)

  -- record() of a recorder that is in recording changes nothing. Of any other it leaves the recorder
  -- in recording, paused exactly as the options say, whether it returns or throws: also where the
  -- serialization format is missing, the writer cannot be opened or a subscription fails.
  pub record_bag_flags :
      (out : Outside) (s : RecorderImpl D)
      → let (r, s') = record_bag out s in
        (s.in_recording ≡ true → (r ≡ ok tt) × (s' ≡ s))
        × (s.in_recording ≡ false
            → (s'.in_recording ≡ true) × (s'.paused ≡ s.record_options.start_paused))
  unfolding record_bag
  record_bag_flags out s = (
    ground arith,
    λ idle. rw idle (
        let s' = record s {
          in_recording = true;
          paused = s.record_options.start_paused;
          topic_qos_profile_overrides = s.record_options.topic_qos_profile_overrides;
        } in
        ground (
          arith,
          with_writer-Flags (out.open_writer s.storage_options) out true
              s.record_options.start_paused s' (refl, refl),
        )),
  )
