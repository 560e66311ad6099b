-- ===== src/Config/Lookups.antt =====
-- What the document that serializeConfigToYaml writes has under each key.
use mathlib.Core.List.{append_assoc, append-nil}
use hector_recorder.Common.{
  String, Bool, true, false, not, ◌≡◌, refl, sym, ap, ◌∙◌, List, [], ◌∷◌, ◌++◌, Option, none, some,
  is_empty, null, ltb, str_eq, arith, if◌then◌else◌,
}
use hector_recorder.Common.Map
use hector_recorder.Options.{CustomOptions, RecordOptions, StorageOptions}
use hector_recorder.Config.{Options, text, number, flag, Emitted, scalar, texts, nested}
use hector_recorder.Config.Serialize.{
  storage_entries, record_entries, custom_entries, throttle_entries,
}

-- An entry that may be absent.
abbrev pub Entry : Type 0 → Type 0
Entry D = Bool × String × Emitted D

swapped : {A : Type 0} (b : Bool) (x y : A) → (if b then x else y) ≡ (if not b then y else x)
swapped true x y = refl
swapped false x y = refl

abbrev pub record_list : {D : Type 0} → RecordOptions → List (Entry D)
record_list options =
    (false, "all_topics", scalar (flag options.all_topics))
    ∷ (false, "all_services", scalar (flag options.all_services))
    ∷ (null options.topics, "topics", texts options.topics)
    ∷ (null options.topic_types, "topic_types", texts options.topic_types)
    ∷ (null options.services, "services", texts options.services)
    ∷ (null options.exclude_topics, "exclude_topics", texts options.exclude_topics)
    ∷ (null options.exclude_topic_types, "exclude_topic_types", texts options.exclude_topic_types)
    ∷ (
      null options.exclude_service_events,
      "exclude_service_events",
      texts options.exclude_service_events,
    )
    ∷ (false, "rmw_serialization_format", scalar (text options.rmw_serialization_format))
    ∷ (is_empty options.regex, "regex", scalar (text options.regex))
    ∷ (is_empty options.exclude_regex, "exclude_regex", scalar (text options.exclude_regex))
    ∷ (
      is_empty options.compression_mode,
      "compression_mode",
      scalar (text options.compression_mode),
    )
    ∷ (
      is_empty options.compression_format,
      "compression_format",
      scalar (text options.compression_format),
    )
    ∷ []

module _ {D : Type 0} where
  abbrev pub flatten : List (Entry D) → List (String × Emitted D)
  flatten [] = []
  flatten ((absent, key, v) ∷ es) = (if absent then [] else (key, v) ∷ []) ++ flatten es

  abbrev pub find : String → List (Entry D) → Option (Emitted D)
  find k [] = none
  find k ((absent, key, v) ∷ es) =
      let rest = find k es in if str_eq key k then (if absent then rest else some v) else rest

  pub lookup-flatten : (k : String) (es : List (Entry D)) → Map.lookup k (flatten es) ≡ find k es
  unfolding Map.lookup
  lookup-flatten k [] = refl
  lookup-flatten k ((true, key, v) ∷ es) = ground (arith, lookup-flatten k es)
  lookup-flatten k ((false, key, v) ∷ es) = ground (arith, lookup-flatten k es)

  flatten-append : (xs ys : List (Entry D)) → flatten (xs ++ ys) ≡ flatten xs ++ flatten ys
  flatten-append [] ys = refl
  flatten-append ((absent, key, v) ∷ xs) ys =
      ap (λ es. (if absent then [] else (key, v) ∷ []) ++ es) (flatten-append xs ys)
      ∙ sym (append_assoc (if absent then [] else (key, v) ∷ []) (flatten xs) (flatten ys))

  abbrev pub storage_list : CustomOptions D → StorageOptions → List (Entry D)
  storage_list custom storage =
      (false, "node_name", scalar (text custom.node_name))
      ∷ (false, "output", scalar (text storage.uri))
      ∷ (false, "storage_id", scalar (text storage.storage_id))
      ∷ (
        not (ltb 0 storage.max_bagfile_size),
        "max_bag_size",
        scalar (number storage.max_bagfile_size),
      )
      ∷ (
        not (ltb 0 storage.max_bagfile_duration),
        "max_bag_duration",
        scalar (number storage.max_bagfile_duration),
      )
      ∷ (
        not (ltb 0 storage.max_cache_size),
        "max_cache_size",
        scalar (number storage.max_cache_size),
      )
      ∷ (
        is_empty storage.storage_preset_profile,
        "storage_preset_profile",
        scalar (text storage.storage_preset_profile),
      )
      ∷ (
        is_empty storage.storage_config_uri,
        "storage_config_uri",
        scalar (text storage.storage_config_uri),
      )
      ∷ (false, "snapshot_mode", scalar (flag storage.snapshot_mode))
      ∷ []

  storage_entries_list :
      (custom : CustomOptions D) (storage : StorageOptions)
      → storage_entries custom storage "" ≡ flatten (storage_list custom storage)
  unfolding storage_entries
  storage_entries_list custom storage =
      rw
        (
          swapped (ltb 0 storage.max_bagfile_size),
          swapped (ltb 0 storage.max_bagfile_duration),
          swapped (ltb 0 storage.max_cache_size),
        )
        (simp (append_assoc))

  record_entries_list :
      (options : RecordOptions) → record_entries {D = D} options ≡ flatten (record_list options)
  unfolding record_entries
  record_entries_list options = simp (append_assoc, append-nil)

  abbrev pub custom_list : CustomOptions D → List (Entry D)
  custom_list custom =
      (false, "publish_status", scalar (flag custom.publish_status))
      ∷ (false, "publish_status_topic", scalar (text custom.status_topic))
      ∷ (
        null custom.topic_throttle,
        "topic_throttle",
        nested (throttle_entries custom.topic_throttle),
      )
      ∷ []

  custom_entries_list :
      (custom : CustomOptions D) → custom_entries custom ≡ flatten (custom_list custom)
  unfolding custom_entries
  custom_entries_list custom = simp (append_assoc, append-nil)

  -- The document without an output override, entry by entry.
  abbrev pub listed : Options D → List (Entry D)
  listed o = storage_list o.custom o.storage ++ (record_list o.recording ++ custom_list o.custom)

  abbrev pub document : Options D → List (String × Emitted D)
  document o =
      storage_entries o.custom o.storage "" ++ record_entries o.recording ++ custom_entries o.custom

  pub document_list : (o : Options D) → document o ≡ flatten (listed o)
  document_list o =
      rw
        (
          storage_entries_list o.custom o.storage,
          record_entries_list o.recording,
          custom_entries_list o.custom,
          flatten-append (storage_list o.custom o.storage)
              (record_list o.recording ++ custom_list o.custom),
          flatten-append (record_list o.recording) (custom_list o.custom),
        )
        (simp (append_assoc))
