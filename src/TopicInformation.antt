-- ===== src/TopicInformation.antt =====
-- The statistics of a topic: hector_recorder/include/hector_recorder/topic_information.hpp.
--
-- The boost accumulators are given by the last 100 samples that were fed to them, oldest first; their
-- rolling means are fields of `Rolling`, as is the arithmetic on doubles. `size_t` counters wrap at 2^64.
pub mod Counting
mod Tests
use hector_recorder.Common.{
  ℕ, ◌+◌, ◌-◌, ◌/◌, ◌%◌, ◌^◌, String, Bool, true, false, ◌||◌, List, [], ◌∷◌, ◌++◌, ℤ, pos, ltb,
  ◌==◌, sub_ℕ, if◌then◌else◌, length, drop,
}

pub record TopicInformation : Type 0 where
  pub message_count : ℕ
  pub size : ℕ
  pub topic_type : String
  pub publisher_count : ℕ
  pub qos : String
  pub time_intervals : List ℤ
  pub sizes : List ℕ
  pub last_msg_stamp : ℕ
  pub last_update : ℕ

abbrev pub new_information : TopicInformation
new_information = record {
  message_count = 0;
  size = 0;
  topic_type = "";
  publisher_count = 0;
  qos = "";
  time_intervals = [];
  sizes = [];
  last_msg_stamp = 0;
  last_update = 0;
}

-- The accumulators are made with window_size = 100.
abbrev pub window_size : ℕ
window_size = 100

unfoldable pub feed : {A : Type 0} → List A → A → List A
feed window x = let fed = window ++ x ∷ [] in drop (length fed - window_size) fed

-- `now` is the reading of the steady clock, `timestamp` the stamp of the message, in nanoseconds.
unfoldable pub update_statistics : ℕ → ℕ → ℕ → TopicInformation → TopicInformation
unfolding feed
update_statistics now timestamp size info =
    let intervals =
      if info.last_msg_stamp == 0
      then info.time_intervals
      else feed info.time_intervals (sub_ℕ timestamp info.last_msg_stamp) in
    record info {
      time_intervals = intervals;
      last_msg_stamp = timestamp;
      last_update = now;
      sizes = feed info.sizes size;
      size = (info.size + size) % 2 ^ 64;
      message_count = (info.message_count + 1) % 2 ^ 64;
    }

unfoldable pub update_publisher_info : String → ℕ → String → TopicInformation → TopicInformation
update_publisher_info type count qos_profile info = record info {
  topic_type = type;
  publisher_count = count;
  qos = qos_profile;
}

-- The elapsed time is cut down to whole seconds and compared with 3.0.
unfoldable pub is_data_stale : ℕ → TopicInformation → Bool
is_data_stale now info = ltb 3 ((now - info.last_update) / 1_000_000_000)

pub record Rolling (D : Type 0) : Type 0 where
  pub zero_rate : D
  pub rate_of : ℤ → D
  pub mean_interval : List ℤ → ℤ
  pub bytes_per_second : List ℕ → D → ℕ

module _ {D : Type 0} (rolling : Rolling D) where
  -- `rate_of` is 1.0 / (mean / 1e9).
  unfoldable pub mean_frequency : ℕ → TopicInformation → D
  unfolding is_data_stale
  mean_frequency now info =
      if ltb info.message_count 2 || is_data_stale now info
      then rolling.zero_rate
      else rolling.rate_of (rolling.mean_interval info.time_intervals)

  -- `bytes_per_second` is the rolling mean of the sizes times the frequency, as a size_t.
  unfoldable pub bandwidth : ℕ → TopicInformation → ℕ
  unfolding mean_frequency
  bandwidth now info =
      if ltb info.message_count 2 || is_data_stale now info
      then 0
      else rolling.bytes_per_second info.sizes (mean_frequency now info)
