-- ===== src/Options.antt =====
-- The options that the parts of the recorder share: CustomOptions of
-- hector_recorder/include/hector_recorder/utils.h, and the fields of RecordOptions, StorageOptions and
-- rmw_qos_profile_t (rosbag2 and rmw) that hector_recorder/src/config_yaml.cpp reads and writes.
use hector_recorder.Common.{ℕ, ℤ, String, Bool, List}
use hector_recorder.Common.Map.{Map}
use hector_recorder.Throttle.{ThrottleConfig}

pub data History : Type 0 where
  keep_last keep_all system_default : History

pub data Reliability : Type 0 where
  reliable best_effort system_default unknown : Reliability

pub data Durability : Type 0 where
  volatile transient_local system_default unknown : Durability

pub data Liveliness : Type 0 where
  automatic manual_by_topic system_default : Liveliness

-- rmw_time_t, as the source fills it: an int32_t and a uint32_t.
pub record RmwTime : Type 0 where
  pub sec : ℤ
  pub nsec : ℕ

pub record Qos : Type 0 where
  pub history : History
  pub depth : ℕ
  pub reliability : Reliability
  pub durability : Durability
  pub deadline : RmwTime
  pub lifespan : RmwTime
  pub liveliness : Liveliness
  pub liveliness_lease_duration : RmwTime
  pub avoid_ros_namespace_conventions : Bool

pub record StorageOptions : Type 0 where
  pub uri : String
  pub storage_id : String
  pub max_bagfile_size : ℕ
  pub max_bagfile_duration : ℕ
  pub max_cache_size : ℕ
  pub storage_preset_profile : String
  pub storage_config_uri : String
  pub snapshot_mode : Bool
  pub start_time_ns : ℤ
  pub end_time_ns : ℤ
  pub custom_data : Map String

pub record RecordOptions : Type 0 where
  pub all_topics : Bool
  pub all_services : Bool
  pub is_discovery_disabled : Bool
  pub topics : List String
  pub topic_types : List String
  pub services : List String
  pub exclude_topics : List String
  pub exclude_topic_types : List String
  pub exclude_service_events : List String
  pub rmw_serialization_format : String
  pub topic_polling_interval : ℤ
  pub regex : String
  pub exclude_regex : String
  pub node_prefix : String
  pub compression_mode : String
  pub compression_format : String
  pub compression_queue_size : ℕ
  pub compression_threads : ℕ
  pub compression_threads_priority : ℤ
  pub topic_qos_profile_overrides : Map Qos
  pub include_hidden_topics : Bool
  pub include_unpublished_topics : Bool
  pub ignore_leaf_topics : Bool
  pub start_paused : Bool
  pub use_sim_time : Bool
  pub disable_keyboard_controls : Bool

pub record CustomOptions (D : Type 0) : Type 0 where
  pub node_name : String
  pub config_path : String
  pub qos_profile_overrides_path : String
  pub status_topic : String
  pub publish_status : Bool
  pub topic_throttle : Map (ThrottleConfig D)
  pub recorded_by : String
  pub preset_names : List String
  pub active_preset : String
