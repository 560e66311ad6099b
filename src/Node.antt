-- ===== src/Node.antt =====
-- RecorderNode and its service handlers: hector_recorder/src/recorder_node.cpp and
-- hector_recorder/src/service_handlers.cpp. Each service call is one step under the node's mutex: it
-- takes the state of the node and gives the response and the new state.
pub mod Handlers
pub mod Services
pub mod Bags
pub mod Shown
pub mod Responses
pub mod Applying
mod Tests
use hector_recorder.Common.{String, Bool, true, false, Option, none, some}
use hector_recorder.Options.{CustomOptions, RecordOptions, StorageOptions}
use hector_recorder.Recorder.{Outside, RecorderImpl}
use hector_recorder.Utils.Output.{FileSystem}

pub record Node (D : Type 0) : Type 0 where
  pub recorder : Option (RecorderImpl D)
  pub custom_options : CustomOptions D
  pub record_options : RecordOptions
  pub storage_options : StorageOptions
  pub raw_output_uri : String

-- The fields of a response; `text` is its bag_path or its configuration, empty where it is not set.
pub record Response : Type 0 where
  pub success : Bool
  pub message : String
  pub text : String

-- What the outside answers in the course of a call: the files, the host, and what the recorder meets
-- when it is stopped and when it is started.
pub record World : Type 0 where
  pub fs : FileSystem
  pub read_file : String → Option String
  pub gethostname : Option String
  pub at_stop : Outside
  pub at_start : Outside

abbrev pub refused : String → Response
refused message = record { success = false; message = message; text = "" }

abbrev pub in_recording : {D : Type 0} → Option (RecorderImpl D) → Bool
in_recording none = false
in_recording (some r) = r.in_recording
