-- ===== src/Config.antt =====
-- The YAML configuration: hector_recorder/src/config_yaml.cpp. yaml-cpp is the parameter `Yaml`: its
-- nodes are values of `N`, and `get n k` is `n[k]` where that is defined. A conversion throws where
-- yaml-cpp does.
pub mod Qos
pub mod Throttling
pub mod Parse
pub mod Bounds
pub mod Serialize
pub mod Lookups
pub mod Emitter
pub mod RoundTrip
pub mod Limits
mod Documents
mod Tests
use hector_recorder.Common.{ℕ, ℤ, String, Bool, true, false, List, Option, Result, ok, throw}
use hector_recorder.Common.Map.{Map}
use hector_recorder.Throttle.{ThrottleConfig}
use hector_recorder.Options.{CustomOptions, RecordOptions, StorageOptions}

-- What the code gives to YAML::Emitter: scalars, lists of texts, and the map of maps of the throttle.
pub data Scalar (D : Type 0) : Type 0 where
  text : String → Scalar D
  number : ℕ → Scalar D
  integer : ℤ → Scalar D
  flag : Bool → Scalar D
  double : D → Scalar D

pub data Emitted (D : Type 0) : Type 0 where
  scalar : Scalar D → Emitted D
  texts : List String → Emitted D
  nested : List (String × List (String × Scalar D)) → Emitted D

pub record Yaml (N D : Type 0) : Type 0 where
  pub get : N → String → Option N
  pub is_map : N → Bool
  pub entries : N → List (String × N)
  pub elements : N → List N
  pub size : N → Result ℕ
  pub index : N → ℕ → N
  pub as_string : N → Result String
  pub as_strings : N → Result (List String)
  pub as_bool : N → Result Bool
  pub as_int : N → Result ℤ
  pub as_int32 : N → Result ℤ
  pub as_int64 : N → Result ℤ
  pub as_uint64 : N → Result ℕ
  pub as_double : N → Result D
  pub as_gibibytes : N → Result ℕ
  pub le_zero : D → Bool
  pub zero : D
  pub one : D
  pub load_file : String → Result N
  pub load : String → Result N
  pub emit : List (String × Emitted D) → String

-- The three groups of options that parsing fills.
pub record Options (D : Type 0) : Type 0 where
  pub custom : CustomOptions D
  pub recording : RecordOptions
  pub storage : StorageOptions
