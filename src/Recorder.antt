-- ===== src/Recorder.antt =====
-- RecorderImpl: hector_recorder/src/modified/recorder_impl.cpp and
-- hector_recorder/include/hector_recorder/modified/recorder_impl.hpp. This file has its state; the
-- children have its operations (Topics, Discovery, Control, Incoming) and what is proved of them.
--
-- A method returns what it throws, if it does, and the new state. What ROS and rosbag2 answer in the
-- course of a call is an argument, a value of `Outside`; the calls of the rosbag2 writer are kept in
-- the state, in order, as `writer`. A mutex held for a whole method makes it one step.
pub mod Topics
pub mod Discovery
pub mod Control
pub mod Incoming
pub mod Log
pub mod Steps
pub mod Invariant
pub mod Keeping
pub mod Reachable
pub mod Lifecycle
pub mod Opening
pub mod Stamps
pub mod Restart
pub mod Splitting
mod Tests
use hector_recorder.Common.{ℕ, ℤ, String, Bool, true, false, List, [], ◌∷◌, ◌++◌, Result, ok, throw}
use hector_recorder.Common.Map.{Map}
use hector_recorder.Throttle.{ThrottleConfig, ThrottleState}
use hector_recorder.TopicInformation.{TopicInformation}
use hector_recorder.Options.{Qos, StorageOptions, RecordOptions, Reliability, Durability}

-- rclcpp::TopicEndpointInfo, as far as the source reads it; a type hash has a version and a value.
pub record Endpoint : Type 0 where
  pub topic_type : String
  pub profile : Qos
  pub hash_version : ℕ
  pub hash_value : String

pub record SplitInfo : Type 0 where
  pub closed_file : String
  pub opened_file : String

pub data WriterCall : Type 0 where
  opened : String → String → WriterCall
  topic_created : String → String → String → List Qos → String → WriterCall
  topic_removed : String → WriterCall
  written : String → String → ℕ → ℕ → ℕ → WriterCall
  split_asked closed : WriterCall

-- discovery_future_, with the thread behind it: none yet, waiting for /clock, in its main loop, ended.
pub data Future : Type 0 where
  invalid awaiting_clock discovering ready : Future

-- The answers to one call. `filter_topics f` are the topics of the graph that a TopicFilter made from
-- the options f lets through; `joined` says that the discovery thread ends within the time that
-- stop_discovery waits, and `woken` that the event thread waits on its condition variable when stop()
-- notifies it. `create_topic is_open t` is what the writer answers to a topic, with a bag open or not.
pub record Outside : Type 0 where
  pub rmw_format : String
  pub expand_name : String → Result String
  pub filter_topics : RecordOptions → Map String
  pub publishers_info : String → List Endpoint
  pub open_writer : StorageOptions → Result (Unit {0})
  pub close_writer : Result (Unit {0})
  pub split_bagfile : Result (Unit {0})
  pub create_topic : Bool → String → Result (Unit {0})
  pub create_subscription : String → Qos → Result Bool
  pub adapt_request_to_offers : String → List Endpoint → Qos
  pub stringify_hash : String → String
  pub rclcpp_ok : Bool
  pub clock_started : Bool
  pub joined : Bool
  pub woken : Bool

pub record RecorderImpl (D : Type 0) : Type 0 where
  pub storage_options : StorageOptions
  pub record_options : RecordOptions
  pub topic_filter : RecordOptions
  pub subscriptions : Map Qos
  pub stamped_by_node : Map Bool
  pub topics_info : Map TopicInformation
  pub topics_warned_about_incompatibility : List String
  pub serialization_format : String
  pub topic_qos_profile_overrides : Map Qos
  pub in_recording : Bool
  pub paused : Bool
  pub stop_flag : Bool
  pub discovery_future : Future
  pub event_thread_running : Bool
  pub event_publisher_thread_should_exit : Bool
  pub write_split_has_occurred : Bool
  pub bag_split_info : SplitInfo
  pub files : List String
  pub first_msg_received : Bool
  pub first_stamp : ℕ
  pub throttle_configs : Map (ThrottleConfig D)
  pub throttle_states : Map (ThrottleState D)
  pub writer : List WriterCall

abbrev pub Outcome : Type 0 → Type 0
Outcome D = Result (Unit {0}) × RecorderImpl D

-- The next step, unless the one before threw.
infixl 5 ◌then_do◌
abbrev pub ◌then_do◌ : {D : Type 0} → Outcome D → (RecorderImpl D → Outcome D) → Outcome D
(ok u, s) then_do f = f s
(throw e, s) then_do f = (throw e, s)

abbrev pub call_writer : {D : Type 0} → WriterCall → RecorderImpl D → RecorderImpl D
call_writer c s = record s { writer = s.writer ++ c ∷ [] }
