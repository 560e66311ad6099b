-- ===== src/Config/RoundTrip.antt =====
-- A configuration that was written and is read again: serializeConfigToYaml and
-- parseYamlConfigFromString of hector_recorder/src/config_yaml.cpp.
use hector_recorder.Common.{pos, negsuc, String, false, List, []}
use hector_recorder.Common.Map
use hector_recorder.Config.{Yaml, Options, Scalar, Emitted}
use hector_recorder.Throttle.{ThrottleConfig}
use hector_recorder.Config.Limits.{IsNested, AllNew}
use hector_recorder.Config.Lookups.{document}
use hector_recorder.Config.Emitter.{IsEmitter, blank, restored}

module _ {N D : Type 0} (y : Yaml N D) (map_of : List (String × Emitted D) → N)
    (node_of : Emitted D → N) (fields_of : List (String × Scalar D) → N) (field_of : Scalar D → N)
    (yaml : IsEmitter y map_of node_of) (nested_yaml : IsNested y node_of fields_of field_of)
    (o p : Options D) where
  abbrev config : N
  config = map_of (document o)

  abbrev after_names : Options D
  after_names = record (blank p) {
    custom = record (blank p).custom { node_name = o.custom.node_name };
    storage = record (blank p).storage { uri = o.storage.uri; storage_id = o.storage.storage_id };
  }

  abbrev after_size : Options D
  after_size = record after_names {
    storage = record after_names.storage { max_bagfile_size = o.storage.max_bagfile_size };
  }

  abbrev after_storage : Options D
  after_storage = record after_size {
    storage = record o.storage {
      start_time_ns = negsuc 0;
      end_time_ns = negsuc 0;
      custom_data = p.storage.custom_data;
    };
  }

  abbrev after_selection : Options D
  after_selection = record after_storage {
    recording = record (blank p).recording {
      all_topics = o.recording.all_topics;
      all_services = o.recording.all_services;
      is_discovery_disabled = false;
      topics = o.recording.topics;
      topic_types = o.recording.topic_types;
      services = o.recording.services;
      exclude_topics = o.recording.exclude_topics;
      exclude_topic_types = o.recording.exclude_topic_types;
      exclude_service_events = o.recording.exclude_service_events;
    };
  }

  abbrev after_format : Options D
  after_format = record after_selection {
    recording = record after_selection.recording {
      rmw_serialization_format = o.recording.rmw_serialization_format;
      topic_polling_interval = pos 100;
      regex = o.recording.regex;
      exclude_regex = o.recording.exclude_regex;
      compression_mode = o.recording.compression_mode;
      compression_format = o.recording.compression_format;
      compression_queue_size = 0;
      compression_threads = 0;
      compression_threads_priority = pos 0;
    };
  }

  abbrev after_behaviour : Options D
  after_behaviour = record (restored o p) {
    custom = record (restored o p).custom { topic_throttle = [] };
  }

  -- Every limit is one that a configuration can give, and no topic has two.
  abbrev pub AllReadable : Map.Map (ThrottleConfig D) → Type 0
  AllReadable m = AllNew y node_of fields_of field_of nested_yaml [] m

  abbrev with_limits : Map.Map (ThrottleConfig D) → Options D
  with_limits m = record after_behaviour {
    custom = record after_behaviour.custom { topic_throttle = m };
  }
