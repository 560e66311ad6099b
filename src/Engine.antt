-- ===== src/Engine.antt =====
-- BagRecorderEngine: rqml_recorder/src/bag_recorder_engine.cpp, with the fields of
-- rqml_recorder/src/bag_recorder_engine.hpp. ROS, rosbag2, the file system and the environment are the
-- parameter `World`; doubles are values of `D`, qualities of service of `Q`. The counters of messages and
-- bytes are taken to stay below their limits. A callback of a subscription is one step. Signals and
-- warnings are left out.
pub mod Starting
pub mod Control
pub mod Steps
pub mod Invariant
pub mod Keeping
pub mod Started
pub mod Reachable
pub mod Outcome
mod Tests
use hector_recorder.Common.{ℕ, String, Bool, List, Option, Result}
use hector_recorder.Common.Map.{Map}

pub data State : Type 0 where
  idle recording paused : State

pub record TopicStats (D : Type 0) : Type 0 where
  pub type : String
  pub publisher_count : ℕ
  pub msg_count : ℕ
  pub total_bytes : ℕ
  pub window_start : ℕ
  pub window_msgs : ℕ
  pub window_bytes : ℕ
  pub frequency : D
  pub bandwidth : D

-- What an open writer was asked for, the latest first.
pub data Call : Type 0 where
  created : String → String → Call
  wrote : String → ℕ → Call
  split : Call

pub record Writer : Type 0 where
  pub uri : String
  pub storage_id : String
  pub max_cache_size : ℕ
  pub custom_data : Map String
  pub calls : List Call

-- `elapsed` is a number of nanoseconds in seconds; `over_half` tells whether it is above 0.5.
pub record Doubles (D : Type 0) : Type 0 where
  pub zero : D
  pub add : D → D → D
  pub div : D → D → D
  pub of_ℕ : ℕ → D
  pub elapsed : ℕ → ℕ → D
  pub over_half : D → Bool

-- `create_directories` gives the text of the error, if there is one; `adapt` is `none` where
-- it throws.
pub record World (Q : Type 0) : Type 0 where
  pub home : Option String
  pub user : Option String
  pub hostname : String
  pub stamp : String
  pub now : ℕ
  pub create_directories : String → Option String
  pub open_writer : String → Result (Unit {0})
  pub close_writer : Result (Unit {0})
  pub split_writer : Result (Unit {0})
  pub topic_names_and_types : Map (List String)
  pub publishers : String → Result ℕ
  pub default_qos : Q
  pub adapt : String → Option Q
  pub create_topic : String → Bool
  pub can_subscribe : String → Bool
  pub write : Bool

pub record Engine (Q D : Type 0) : Type 0 where
  pub state : State
  pub output_dir : String
  pub recorded_by : String
  pub current_bag_path : String
  pub error_message : String
  pub is_paused : Bool
  pub stopping : Bool
  pub recording_start : ℕ
  pub writer : Option Writer
  pub topic_stats : Map (TopicStats D)
  pub total_message_count : ℕ
  pub total_size : D
  pub node : Bool
  pub subscriptions : Map (String × Q)
  pub stats_timer_active : Bool
