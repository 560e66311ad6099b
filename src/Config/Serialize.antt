-- ===== src/Config/Serialize.antt =====
-- serializeConfigToYaml of hector_recorder/src/config_yaml.cpp: the entries that it gives to the emitter,
-- in order.
use hector_recorder.Common.{ℕ, String, List, [], ◌∷◌, ◌++◌, is_empty, null, ltb, if◌then◌else◌}
use hector_recorder.Common.Map.{Map}
use hector_recorder.Throttle.{ThrottleConfig, ThrottleType, messages, bytes, frequency}
use hector_recorder.Options.{CustomOptions, RecordOptions, StorageOptions}
use hector_recorder.Config.{
  Yaml, Options, Scalar, text, number, integer, flag, double, Emitted, scalar, texts, nested,
}

module _ {D : Type 0} where
  abbrev pub number_entry : String → ℕ → List (String × Emitted D)
  number_entry key n = if ltb 0 n then (key, scalar (number n)) ∷ [] else []

  abbrev pub text_entry : String → String → List (String × Emitted D)
  text_entry key s = if is_empty s then [] else (key, scalar (text s)) ∷ []

  abbrev pub texts_entry : String → List String → List (String × Emitted D)
  texts_entry key ss = if null ss then [] else (key, texts ss) ∷ []

  abbrev pub plain : String → Scalar D → List (String × Emitted D)
  plain key v = (key, scalar v) ∷ []

  unfoldable pub storage_entries :
      CustomOptions D → StorageOptions → String → List (String × Emitted D)
  storage_entries custom storage output_override =
      plain "node_name" (text custom.node_name)
      ++ plain "output" (text (if is_empty output_override then storage.uri else output_override))
      ++ plain "storage_id" (text storage.storage_id)
      ++ number_entry "max_bag_size" storage.max_bagfile_size
      ++ number_entry "max_bag_duration" storage.max_bagfile_duration
      ++ number_entry "max_cache_size" storage.max_cache_size
      ++ text_entry "storage_preset_profile" storage.storage_preset_profile
      ++ text_entry "storage_config_uri" storage.storage_config_uri
      ++ plain "snapshot_mode" (flag storage.snapshot_mode)

  unfoldable pub record_entries : RecordOptions → List (String × Emitted D)
  record_entries options =
      plain "all_topics" (flag options.all_topics)
      ++ plain "all_services" (flag options.all_services)
      ++ texts_entry "topics" options.topics
      ++ texts_entry "topic_types" options.topic_types
      ++ texts_entry "services" options.services
      ++ texts_entry "exclude_topics" options.exclude_topics
      ++ texts_entry "exclude_topic_types" options.exclude_topic_types
      ++ texts_entry "exclude_service_events" options.exclude_service_events
      ++ plain "rmw_serialization_format" (text options.rmw_serialization_format)
      ++ text_entry "regex" options.regex
      ++ text_entry "exclude_regex" options.exclude_regex
      ++ text_entry "compression_mode" options.compression_mode
      ++ text_entry "compression_format" options.compression_format

  -- A limit; any type but MESSAGES is written as "bytes".
  abbrev pub throttle_fields : ThrottleType → ThrottleConfig D → List (String × Scalar D)
  throttle_fields messages tc =
      ("type", text "messages") ∷ ("msgs_per_sec", double tc.msgs_per_sec) ∷ []
  throttle_fields bytes tc =
      ("type", text "bytes")
      ∷ ("bytes_per_sec", integer tc.bytes_per_sec)
      ∷ ("window", double tc.window)
      ∷ []
  throttle_fields frequency tc =
      ("type", text "bytes")
      ∷ ("bytes_per_sec", integer tc.bytes_per_sec)
      ∷ ("window", double tc.window)
      ∷ []

  unfoldable pub throttle_entries :
      Map (ThrottleConfig D) → List (String × List (String × Scalar D))
  throttle_entries [] = []
  throttle_entries ((topic, tc) ∷ rest) =
      (topic, throttle_fields tc.type tc) ∷ throttle_entries rest

  unfoldable pub custom_entries : CustomOptions D → List (String × Emitted D)
  unfolding throttle_entries
  custom_entries custom =
      plain "publish_status" (flag custom.publish_status)
      ++ plain "publish_status_topic" (text custom.status_topic)
      ++ (if null custom.topic_throttle
          then []
          else ("topic_throttle", nested (throttle_entries custom.topic_throttle)) ∷ [])

unfoldable pub serialize_config_to_yaml : {N D : Type 0} → Yaml N D → Options D → String → String
unfolding storage_entries record_entries custom_entries
serialize_config_to_yaml y o output_override = y.emit (
    storage_entries o.custom o.storage output_override
    ++ record_entries o.recording
    ++ custom_entries o.custom)
