-- ===== src/Config/Emitter.antt =====
-- A configuration that is read again: the documented behaviour it rests on, what reading it restores,
-- and a chain of steps that succeed: hector_recorder/src/config_yaml.cpp.
use hector_recorder.Common.{
  ℕ, pos, negsuc, String, Bool, true, false, ◌≡◌, refl, ap, ◌∙◌, List, [], ◌∷◌, Result, ok,
}
use hector_recorder.Common.Map
use hector_recorder.Options.{RecordOptions}
use hector_recorder.Config.{Yaml, Options, text, number, flag, Emitted, scalar, texts}
use hector_recorder.Config.Parse.{ParseStep, go_on, assign, run_steps}
use hector_recorder.Config.Limits.{under}

-- Documented behaviour of yaml-cpp on a map: what is under a key, and the conversion of its value.
pub record IsEmitter {N D : Type 0} (y : Yaml N D) (map_of : List (String × Emitted D) → N)
    (node_of : Emitted D → N) : Type 0 where
  pub of_get :
      (es : List (String × Emitted D)) (k : String)
      → y.get (map_of es) k ≡ under node_of (Map.lookup k es)
  pub of_text : (s : String) → y.as_string (node_of (scalar (text s))) ≡ ok s
  pub of_flag : (b : Bool) → y.as_bool (node_of (scalar (flag b))) ≡ ok b
  pub of_number : (n : ℕ) → y.as_uint64 (node_of (scalar (number n))) ≡ ok n
  pub of_texts : (ss : List String) → y.as_strings (node_of (texts ss)) ≡ ok ss

-- What is not written and goes back to its default.
abbrev pub reset_recording : RecordOptions → RecordOptions
reset_recording r = record r {
  is_discovery_disabled = false;
  topic_polling_interval = pos 100;
  compression_queue_size = 0;
  compression_threads = 0;
  compression_threads_priority = pos 0;
  include_hidden_topics = false;
  include_unpublished_topics = false;
  ignore_leaf_topics = false;
  start_paused = false;
  use_sim_time = false;
  disable_keyboard_controls = false;
}

-- Options in which all that is written only where there is something to write is empty.
abbrev pub blank : {D : Type 0} → Options D → Options D
blank p = record {
  custom = record p.custom { topic_throttle = [] };
  recording = record p.recording {
    topics = [];
    topic_types = [];
    services = [];
    exclude_topics = [];
    exclude_topic_types = [];
    exclude_service_events = [];
    regex = "";
    exclude_regex = "";
    compression_mode = "";
    compression_format = "";
  };
  storage = record p.storage {
    max_bagfile_size = 0;
    storage_preset_profile = "";
    storage_config_uri = "";
  };
}

-- `p` with all that is written of `o`, and the defaults of what is read but not written.
abbrev pub restored : {D : Type 0} → Options D → Options D → Options D
restored o p = record {
  custom = record p.custom {
    node_name = o.custom.node_name;
    status_topic = o.custom.status_topic;
    publish_status = o.custom.publish_status;
    topic_throttle = o.custom.topic_throttle;
  };
  recording = record (reset_recording o.recording) {
    node_prefix = p.recording.node_prefix;
    topic_qos_profile_overrides = p.recording.topic_qos_profile_overrides;
  };
  storage = record o.storage {
    start_time_ns = negsuc 0;
    end_time_ns = negsuc 0;
    custom_data = p.storage.custom_data;
  };
}

module _ {D : Type 0} where
  pub run_next :
      (step : ParseStep D) (steps : List (ParseStep D)) (p : Options D) {p' p'' : Options D}
      → step p ≡ (ok true, p')
      → run_steps steps p' ≡ (ok true, p'')
      → run_steps (step ∷ steps) p ≡ (ok true, p'')
  unfolding run_steps
  run_next step steps p h k = ap (λ x. go_on x (run_steps steps)) h ∙ k

  pub run_done : (p : Options D) → run_steps [] p ≡ (ok true, p)
  unfolding run_steps
  run_done p = refl

  pub assign_ok :
      {A : Type 0} (r : Result A) (a : A) (set : A → Options D → Options D) (p : Options D)
      → r ≡ ok a
      → assign r set p ≡ (ok true, set a p)
  assign_ok r a set p h = rw h refl
