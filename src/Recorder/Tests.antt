-- ===== src/Recorder/Tests.antt =====
-- Runs of a recorder at concrete inputs.
use hector_recorder.Common.{ℕ, true, false, ◌≡◌, refl, [], ◌∷◌, Result, ok}
use hector_recorder.Recorder.{RecorderImpl, SplitInfo}
use hector_recorder.Recorder.Discovery.{is_live, discovery_step}
use hector_recorder.Recorder.Control.{
  pause, new_recorder, record_bag, stop, event_thread_step, write_split_callback, expand_all,
}
use hector_recorder.Recorder.Incoming.{Incoming}
use hector_recorder.Recorder.Log.{is_open}
use hector_recorder.Recorder.Opening.{record_bag-IsOpen}
use hector_recorder.Recorder.Discovery.{start_discovery}
use hector_recorder.Recorder.Control.{
  with_writer, with_open_writer, subscribe_at_start, track_unknown, discover_unless_disabled,
}
use hector_recorder.Recorder.Topics.{
  subscribe_topics, subscribe_topic, unknown_topics, track_all, offered_qos_profiles_for_topic,
  type_description_hash_for_topic, subscription_qos_for_topic,
}
use hector_recorder.Options.{RecordOptions}
use hector_recorder.Recorder.Steps.{here, next, records, discovers, pauses, RefusesClosed}
use hector_recorder.Recorder.Invariant.{Inv}
use hector_recorder.Recorder.Lifecycle.{record_bag_flags}
use hector_recorder.Recorder.Restart.{restart_dead}
use hector_recorder.Recorder.Splitting.{split_and_announce, split_and_announce_files, Ready}
use hector_recorder.Recorder.Reachable.{reachable-Inv}
use hector_recorder.Samples.{nanos, storage_options, record_options, calm, full, fresh, busy}

abbrev first_split : SplitInfo
first_split = record { closed_file = "/bags/run/run_0.mcap"; opened_file = "/bags/run/run_1.mcap" }

abbrev second_split : SplitInfo
second_split = record { closed_file = "/bags/run/run_1.mcap"; opened_file = "/bags/run/run_2.mcap" }

abbrev message : Incoming
message = record {
  topic = "/odom";
  type = "nav_msgs/msg/Odometry";
  size = 40;
  received_timestamp = 10;
  source_timestamp = 9;
  system_now = 11;
  steady_now = 5;
  node_now = 12;
}

record_bag_flags_example :
    let (r, s') = record_bag full fresh in
    (false ≡ true → (r ≡ ok tt) × (s' ≡ fresh))
    × (false ≡ false → (s'.in_recording ≡ true) × (s'.paused ≡ false))
record_bag_flags_example = record_bag_flags full fresh

restart_dead_example :
    let s' = (record_bag calm (stop calm busy).1).1 in
    (s'.in_recording ≡ true)
    × (is_live s'.discovery_future ≡ false)
    × ((event_thread_step (write_split_callback first_split s')).files ≡ s'.files)
    × ((stop calm (write_split_callback first_split s')).1.files ≡ s'.files)
restart_dead_example = restart_dead calm calm calm busy first_split refl refl refl refl

split_and_announce_files_example :
    let s' = split_and_announce (first_split ∷ second_split ∷ []) busy in
    (s'.files ≡ "/bags/run" ∷ "/bags/run/run_1.mcap" ∷ "/bags/run/run_2.mcap" ∷ [])
    × (false ≡ false → s'.write_split_has_occurred ≡ false)
    × Ready s'
split_and_announce_files_example =
    split_and_announce_files (first_split ∷ second_split ∷ []) busy
      (record { running = refl; staying = refl })

-- A recorder that has started, found its topic and been paused.
abbrev after_start : RecorderImpl ℕ
after_start = (record_bag calm fresh).1

abbrev after_pause : RecorderImpl ℕ
after_pause = pause (discovery_step calm after_start)

made :
    ◌≡◌ {A = Result (RecorderImpl ℕ)}
      (new_recorder calm storage_options record_options [])
      (ok fresh)
unfolding new_recorder expand_all
made = refl

calm_refuses : RefusesClosed calm
calm_refuses topic = ("Bag is not open.", refl)

reachable-Inv_example : Inv after_pause.subscriptions after_pause.topics_info after_pause.writer
reachable-Inv_example =
    reachable-Inv nanos calm storage_options record_options [] {s = fresh} {t = after_pause} made (
      next
        (next (next here (records calm fresh calm_refuses))
          (discovers calm after_start calm_refuses))
        (pauses (discovery_step calm after_start)))

returns : (record_bag calm fresh).0 ≡ ok tt
unfolding record_bag with_writer with_open_writer subscribe_at_start subscribe_topics
    subscribe_topic track_unknown unknown_topics track_all discover_unless_disabled start_discovery
    offered_qos_profiles_for_topic type_description_hash_for_topic subscription_qos_for_topic
returns = refl

record_bag-IsOpen_example : is_open (record_bag calm fresh).1.writer ≡ true
record_bag-IsOpen_example = record_bag-IsOpen calm fresh refl returns

-- The node's time is taken from now on.
abbrev simulated : RecordOptions
simulated = record record_options { use_sim_time = true }
