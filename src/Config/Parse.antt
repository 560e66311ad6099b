-- ===== src/Config/Parse.antt =====
-- parseYamlNode and its callers, in hector_recorder/src/config_yaml.cpp: a sequence of steps, one for
-- each key, on the three groups of options. A step may throw; what the steps before it set stays set.
use hector_recorder.Common.{
  ℕ, pos, negsuc, String, Bool, true, false, not, List, [], ◌∷◌, Option, none, some, Result, ok,
  throw, ◌>>=◌, is_empty, ◌==◌, if◌then◌else◌,
}
use hector_recorder.Common.Map
use hector_recorder.Common.Map.{Map}
use hector_recorder.Options.{CustomOptions, RecordOptions, StorageOptions, Qos}
use hector_recorder.Throttle.{ThrottleConfig}
use hector_recorder.Config.{Yaml, Options}
use hector_recorder.Config.Qos.{load_qos_overrides_from_file}
use hector_recorder.Config.Throttling.{parse_throttles}

-- `ok true` goes on, `ok false` is `return false`.
abbrev pub ParseStep : Type 0 → Type 0
ParseStep D = Options D → Result Bool × Options D

module _ {D : Type 0} where
  abbrev pub go_on : Result Bool × Options D → ParseStep D → Result Bool × Options D
  go_on (ok true, o) f = f o
  go_on (ok false, o) f = (ok false, o)
  go_on (throw e, o) f = (throw e, o)

  unfoldable pub run_steps : List (ParseStep D) → ParseStep D
  run_steps [] o = (ok true, o)
  run_steps (step ∷ steps) o = go_on (step o) (run_steps steps)

  abbrev pub assign {ℓ} : {A : Type ℓ} → Result A → (A → Options D → Options D) → ParseStep D
  assign (ok a) set o = (ok true, set a o)
  assign (throw e) set o = (throw e, o)

  -- `if ( config[key] ) field = config[key].as<A>();`
  abbrev pub set_if :
      {N A : Type 0} → Option N → (N → Result A) → (A → Options D → Options D) → ParseStep D
  set_if none convert set o = (ok true, o)
  set_if (some n) convert set o = assign (convert n) set o

  -- The same with `else field = fallback;`
  abbrev pub set_or :
      {N A : Type 0} → Option N → (N → Result A) → A → (A → Options D → Options D) → ParseStep D
  set_or none convert fallback set o = (ok true, set fallback o)
  set_or (some n) convert fallback set o = assign (convert n) set o

  -- Setters of the fields.
  abbrev pub on_custom : (CustomOptions D → CustomOptions D) → Options D → Options D
  on_custom f o = record o { custom = f o.custom }

  abbrev pub on_recording : (RecordOptions → RecordOptions) → Options D → Options D
  on_recording f o = record o { recording = f o.recording }

  abbrev pub on_storage : (StorageOptions → StorageOptions) → Options D → Options D
  on_storage f o = record o { storage = f o.storage }

module _ {N D : Type 0} (y : Yaml N D) (config : N) where
  abbrev pub name_steps : List (ParseStep D)
  name_steps =
      (set_if (y.get config "node_name") y.as_string
        (λ v. on_custom (λ r. record r { node_name = v })))
      ∷ (set_if (y.get config "output") y.as_string (λ v. on_storage (λ r. record r { uri = v })))
      ∷ (set_if (y.get config "storage_id") y.as_string
          (λ v. on_storage (λ r. record r { storage_id = v })))
      ∷ []

  abbrev pub size_choice : Option N → Option N → ParseStep D
  size_choice (some a) (some b) o = (
    throw
        "Conflicting configuration detected: Both 'max_bag_size' and 'max_bag_size_gb' are defined. Please specify only one.",
    o,
  )
  size_choice (some a) none o =
      assign (y.as_uint64 a) (λ v. on_storage (λ r. record r { max_bagfile_size = v })) o
  size_choice none (some b) o =
      assign (y.as_gibibytes b) (λ v. on_storage (λ r. record r { max_bagfile_size = v })) o
  size_choice none none o = (ok true, o)

  -- The two keys for the size of a bag file exclude one another.
  unfoldable pub size_step : ParseStep D
  size_step o = size_choice (y.get config "max_bag_size") (y.get config "max_bag_size_gb") o

  abbrev pub storage_steps : List (ParseStep D)
  storage_steps =
      (set_or (y.get config "max_bag_duration") y.as_uint64 0
        (λ v. on_storage (λ r. record r { max_bagfile_duration = v })))
      ∷ (set_or (y.get config "max_cache_size") y.as_uint64 0
          (λ v. on_storage (λ r. record r { max_cache_size = v })))
      ∷ (set_if (y.get config "storage_preset_profile") y.as_string
          (λ v. on_storage (λ r. record r { storage_preset_profile = v })))
      ∷ (set_if (y.get config "storage_config_uri") y.as_string
          (λ v. on_storage (λ r. record r { storage_config_uri = v })))
      ∷ (set_or (y.get config "snapshot_mode") y.as_bool false
          (λ v. on_storage (λ r. record r { snapshot_mode = v })))
      ∷ (set_or (y.get config "start_time_ns") y.as_int64 (negsuc 0)
          (λ v. on_storage (λ r. record r { start_time_ns = v })))
      ∷ (set_or (y.get config "end_time_ns") y.as_int64 (negsuc 0)
          (λ v. on_storage (λ r. record r { end_time_ns = v })))
      ∷ []

  abbrev put_custom : Result String → Result String → Options D → Result Bool × Options D
  put_custom (throw e) v o = (throw e, o)
  put_custom (ok k) (throw e) o = (throw e, o)
  put_custom (ok k) (ok v) o =
      (ok true, on_storage (λ r. record r { custom_data = Map.insert k v r.custom_data }) o)

  abbrev custom_pair : Result ℕ → N → ParseStep D
  custom_pair (throw e) n o = (throw e, o)
  custom_pair (ok size) n o =
      if size == 2
      then put_custom (y.as_string (y.index n 0)) (y.as_string (y.index n 1)) o
      else (ok false, o)

  unfoldable pub custom_pairs : List N → ParseStep D
  custom_pairs [] o = (ok true, o)
  custom_pairs (n ∷ rest) o = go_on (custom_pair (y.size n) n o) (custom_pairs rest)

  abbrev custom_from : Option N → ParseStep D
  custom_from none o = (ok true, o)
  custom_from (some n) o =
      custom_pairs (y.elements n) (on_storage (λ r. record r { custom_data = [] }) o)

  -- `custom_data`: each element of the node is taken as a sequence of two texts.
  unfoldable pub custom_step : ParseStep D
  unfolding custom_pairs
  custom_step o = custom_from (y.get config "custom_data") o

  abbrev pub selection_steps : List (ParseStep D)
  selection_steps =
      (set_or (y.get config "all_topics") y.as_bool false
        (λ v. on_recording (λ r. record r { all_topics = v })))
      ∷ (set_or (y.get config "all_services") y.as_bool false
          (λ v. on_recording (λ r. record r { all_services = v })))
      ∷ (set_or (y.get config "is_discovery_disabled") y.as_bool false
          (λ v. on_recording (λ r. record r { is_discovery_disabled = v })))
      ∷ (set_if (y.get config "topics") y.as_strings
          (λ v. on_recording (λ r. record r { topics = v })))
      ∷ (set_if (y.get config "topic_types") y.as_strings
          (λ v. on_recording (λ r. record r { topic_types = v })))
      ∷ (set_if (y.get config "services") y.as_strings
          (λ v. on_recording (λ r. record r { services = v })))
      ∷ (set_if (y.get config "exclude_topics") y.as_strings
          (λ v. on_recording (λ r. record r { exclude_topics = v })))
      ∷ (set_if (y.get config "exclude_topic_types") y.as_strings
          (λ v. on_recording (λ r. record r { exclude_topic_types = v })))
      ∷ (set_if (y.get config "exclude_service_events") y.as_strings
          (λ v. on_recording (λ r. record r { exclude_service_events = v })))
      ∷ []

  abbrev pub format_steps : String → List (ParseStep D)
  format_steps rmw_format =
      (set_or (y.get config "rmw_serialization_format") y.as_string rmw_format
        (λ v. on_recording (λ r. record r { rmw_serialization_format = v })))
      ∷ (set_or (y.get config "topic_polling_interval") y.as_int (pos 100)
          (λ v. on_recording (λ r. record r { topic_polling_interval = v })))
      ∷ (set_if (y.get config "regex") y.as_string
          (λ v. on_recording (λ r. record r { regex = v })))
      ∷ (set_if (y.get config "exclude_regex") y.as_string
          (λ v. on_recording (λ r. record r { exclude_regex = v })))
      ∷ (set_if (y.get config "node_prefix") y.as_string
          (λ v. on_recording (λ r. record r { node_prefix = v })))
      ∷ (set_if (y.get config "compression_mode") y.as_string
          (λ v. on_recording (λ r. record r { compression_mode = v })))
      ∷ (set_if (y.get config "compression_format") y.as_string
          (λ v. on_recording (λ r. record r { compression_format = v })))
      ∷ (set_or (y.get config "compression_queue_size") y.as_uint64 0
          (λ v. on_recording (λ r. record r { compression_queue_size = v })))
      ∷ (set_or (y.get config "compression_threads") y.as_uint64 0
          (λ v. on_recording (λ r. record r { compression_threads = v })))
      ∷ (set_or (y.get config "compression_threads_priority") y.as_int32 (pos 0)
          (λ v. on_recording (λ r. record r { compression_threads_priority = v })))
      ∷ []

  abbrev pub behaviour_steps : (N → Result (Map Qos)) → List (ParseStep D)
  behaviour_steps qos_from =
      (set_if (y.get config "topic_qos_profile_overrides_path") qos_from
        (λ v. on_recording (λ r. record r { topic_qos_profile_overrides = v })))
      ∷ (set_or (y.get config "include_hidden_topics") y.as_bool false
          (λ v. on_recording (λ r. record r { include_hidden_topics = v })))
      ∷ (set_or (y.get config "include_unpublished_topics") y.as_bool false
          (λ v. on_recording (λ r. record r { include_unpublished_topics = v })))
      ∷ (set_or (y.get config "ignore_leaf_topics") y.as_bool false
          (λ v. on_recording (λ r. record r { ignore_leaf_topics = v })))
      ∷ (set_or (y.get config "start_paused") y.as_bool false
          (λ v. on_recording (λ r. record r { start_paused = v })))
      ∷ (set_or (y.get config "use_sim_time") y.as_bool false
          (λ v. on_recording (λ r. record r { use_sim_time = v })))
      ∷ (set_or (y.get config "disable_keyboard_controls") y.as_bool false
          (λ v. on_recording (λ r. record r { disable_keyboard_controls = v })))
      ∷ (set_if (y.get config "publish_status") y.as_bool
          (λ v. on_custom (λ r. record r { publish_status = v })))
      ∷ (set_if (y.get config "publish_status_topic") y.as_string
          (λ v. on_custom (λ r. record r { status_topic = v })))
      ∷ []

  abbrev pub with_throttles : Result Bool × Map (ThrottleConfig D) → ParseStep D
  with_throttles (r, m) o = (r, on_custom (λ c. record c { topic_throttle = m }) o)

  unfoldable pub throttles_from : Option N → ParseStep D
  unfolding parse_throttles
  throttles_from none o = (ok true, o)
  throttles_from (some n) o =
      if not (y.is_map n)
      then (throw "'topic_throttle' must be a map: <topic> -> {type, ...}", o)
      else with_throttles (parse_throttles y (y.entries n) o.custom.topic_throttle) o

  unfoldable pub throttle_step : ParseStep D
  unfolding throttles_from
  throttle_step o = throttles_from (y.get config "topic_throttle") o

  -- The last statement, for a format that the configuration gives as the empty text.
  abbrev pub format_step : String → ParseStep D
  format_step rmw_format o = (
    ok true,
    if is_empty o.recording.rmw_serialization_format
        then on_recording (λ r. record r { rmw_serialization_format = rmw_format }) o
        else o,
  )

  -- The steps of the whole configuration, in order.
  abbrev pub node_steps : String → Qos → List (ParseStep D)
  node_steps rmw_format profile_default =
      run_steps name_steps
      ∷ size_step
      ∷ run_steps storage_steps
      ∷ custom_step
      ∷ run_steps selection_steps
      ∷ run_steps (format_steps rmw_format)
      ∷ run_steps (
          behaviour_steps
            (λ n. y.as_string n >>= (λ path. load_qos_overrides_from_file y profile_default path)))
      ∷ throttle_step
      ∷ format_step rmw_format
      ∷ []

  unfoldable pub parse_yaml_node : String → Qos → ParseStep D
  unfolding run_steps size_step custom_step throttle_step load_qos_overrides_from_file
  parse_yaml_node rmw_format profile_default = run_steps (node_steps rmw_format profile_default)

-- An exception is logged, and `false` comes back.
abbrev pub swallowed : {D : Type 0} → Result Bool × Options D → Bool × Options D
swallowed (ok b, o) = (b, o)
swallowed (throw e, o) = (false, o)

module _ {N D : Type 0} (y : Yaml N D) (rmw_format : String) (profile_default : Qos) where
  abbrev pub parsed : Result N → Options D → Bool × Options D
  parsed (throw e) o = (false, o)
  parsed (ok config) o = swallowed (parse_yaml_node y config rmw_format profile_default o)

  unfoldable pub parse_yaml_config : Options D → Bool × Options D
  unfolding parse_yaml_node
  parse_yaml_config o = parsed (y.load_file o.custom.config_path) o

  unfoldable pub parse_yaml_config_from_string : String → Options D → Bool × Options D
  unfolding parse_yaml_node
  parse_yaml_config_from_string yaml o = parsed (y.load yaml) o
