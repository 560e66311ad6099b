-- ===== src/Player.antt =====
-- BagPlayerEngine: rqml_recorder/src/bag_player_engine.cpp, with the fields of
-- rqml_recorder/src/bag_player_engine.hpp in groups. Readers of bags are values of `R` and what they do
-- is the parameter `Rosbag`; the qualities of service are values of `Q`, doubles of `D`. The readers'
-- has_next and read_next are taken not to throw. Signals are left out.
pub mod Loading
pub mod Playing
pub mod Control
pub mod Steps
pub mod Invariant
pub mod Keeping
pub mod Reachable
pub mod Order
pub mod Seeking
pub mod Looping
mod Tests
use hector_recorder.Common.{ℕ, ℤ, String, Bool, List, Option, Result}
use hector_recorder.Common.Map.{Map}

pub record Message : Type 0 where
  pub topic_name : String
  pub recv_timestamp : ℕ
  pub serialized_data : Option (List ℕ)

pub record Topic (Q : Type 0) : Type 0 where
  pub name : String
  pub type : String
  pub offered_qos_profiles : List Q

-- Times and durations are nanoseconds.
pub record Metadata : Type 0 where
  pub duration : ℕ
  pub starting_time : ℕ
  pub message_count : ℕ
  pub storage_identifier : String
  pub topics : List String

-- `open_bag` is given a path and a storage identifier; `can_publish` tells whether create_generic_publisher
-- returns.
pub record Rosbag (R Q : Type 0) : Type 0 where
  pub home : Option String
  pub is_directory : String → Bool
  pub file_name : String → String
  pub sorted : List String → List String
  pub open_bag : String → String → Result R
  pub get_metadata : R → Result Metadata
  pub get_all_topics_and_types : R → List (Topic Q)
  pub set_filter : List String → R → R
  pub reset_filter : R → R
  pub seek_to : ℕ → R → Result R
  pub close : R → Result (Unit {0})
  pub has_next : R → Bool
  pub read_next : R → Option Message × R
  pub default_qos : Q
  pub can_publish : Topic Q → Q → Bool

-- `seconds` is a number of nanoseconds times 1e-9, `nanoseconds` its inverse, cut to an integer.
pub record Doubles (D : Type 0) : Type 0 where
  pub zero : D
  pub one : D
  pub slack : D
  pub lt : D → D → Bool
  pub le : D → D → Bool
  pub sub : D → D → D
  pub div : D → D → D
  pub fuzzy_eq : D → D → Bool
  pub seconds : ℤ → D
  pub nanoseconds : D → ℤ

pub data State : Type 0 where
  idle loading loaded playing paused finished : State

pub record Bag (D : Type 0) : Type 0 where
  pub path : String
  pub name : String
  pub duration : D
  pub start_ns : ℕ
  pub end_ns : ℕ
  pub topic_count : ℕ
  pub message_count : ℤ
  pub topic_list : List String
  pub storage_id : String

pub record Position : Type 0 where
  pub current_bag_time_ns : ℕ
  pub wall_time_at_last_msg : ℕ
  pub last_msg_bag_time_ns : ℕ
  pub first_message : Bool

pub record Outputs (Q : Type 0) : Type 0 where
  pub clock_enabled : Bool
  pub node : Bool
  pub clock_publisher : Bool
  pub publishers : Map (String × Q)
  pub disabled_topics : List String

-- What the publishers are given.
pub data Event : Type 0 where
  clock : ℕ → Event
  message : Message → Event

pub record Player (R Q D : Type 0) : Type 0 where
  pub state : State
  pub rate : D
  pub looping : Bool
  pub error_message : String
  pub bag : Bag D
  pub stopping : Bool
  pub position : Position
  pub pending_msg : Option Message
  pub active_filter : List String
  pub reader : Option R
  pub outputs : Outputs Q
  pub timer_active : Bool
  pub events : List Event
