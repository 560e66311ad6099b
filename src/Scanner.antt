-- ===== src/Scanner.antt =====
-- LocalBagScanner: rqml_recorder/src/local_bag_scanner.cpp. The file system and rosbag2's MetadataIo are
-- the parameter `Files`. What goes to the callback or to serviceResponse is the value of a function;
-- sizes and durations, which are turned into doubles there, are left as numbers.
pub mod Bags
pub mod Completion
mod Tests
use hector_recorder.Common.{ℕ, String, Bool, List, Option, Result}
use hector_recorder.Common.Map.{Map}

pub record TopicCount : Type 0 where
  pub name : String
  pub type : String
  pub serialization_format : String
  pub message_count : ℕ

pub record Metadata : Type 0 where
  pub storage_identifier : String
  pub message_count : ℕ
  pub duration : ℕ
  pub starting_time : ℕ
  pub custom_data : Map String
  pub topics_with_message_count : List TopicCount

pub record Child : Type 0 where
  pub path : String
  pub filename : String
  pub is_directory : Bool

-- What fs::remove_all does: it tells how many files it removed, as a text, sets the error code, or
-- throws.
pub data Removal : Type 0 where
  removed failed thrown : String → Removal

-- `sizes` has the sizes of the regular files below a directory, `local_time` prints a time in seconds,
-- and `later` compares two such texts.
pub record Files : Type 0 where
  pub home : Option String
  pub is_directory : String → Bool
  pub children : String → List Child
  pub parent_path : String → String
  pub filename : String → String
  pub sizes : String → List ℕ
  pub metadata_file_exists : String → Bool
  pub read_metadata : String → Result Metadata
  pub local_time : ℕ → String
  pub later : String → String → Bool
  pub remove_all : String → Removal
  pub sorted : List String → List String

pub record BagInfo : Type 0 where
  pub name : String
  pub path : String
  pub size_bytes : ℕ
  pub storage_id : String
  pub topic_count : ℕ
  pub message_count : ℕ
  pub duration : ℕ
  pub start_time : String
  pub recorded_by : String
