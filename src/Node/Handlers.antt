-- ===== src/Node/Handlers.antt =====
-- handleStartRecording, handleStopRecording and handleApplyConfig of
-- hector_recorder/src/service_handlers.cpp.
use hector_recorder.Common.{
  String, ◌<>◌, Bool, true, false, not, Option, none, some, Result, ok, throw, is_empty,
  if◌then◌else◌,
}
use hector_recorder.Common.Map
use hector_recorder.Common.Map.{Map}
use hector_recorder.Options.{Qos, CustomOptions, RecordOptions, StorageOptions}
use hector_recorder.Config.{Yaml, Options}
use hector_recorder.Config.Parse.{parse_yaml_config_from_string}
use hector_recorder.Config.Serialize.{serialize_config_to_yaml}
use hector_recorder.Recorder.{Outside, RecorderImpl, Outcome}
use hector_recorder.Recorder.Control.{
  new_recorder, record_bag, stop, update_record_options, update_throttle_configs,
}
use hector_recorder.Utils.Output.{resolve_output_directory}
use hector_recorder.Node.{Node, Response, World, refused, in_recording}

abbrev or_text : Option String → String → String
or_text none d = d
or_text (some s) d = s

unfoldable pub get_default_recorded_by : World → String
get_default_recorded_by w =
    or_text (w.fs.getenv "USER") "unknown" <> "@" <> or_text w.gethostname "unknown"

abbrev pub requested_dir : String → String → String
requested_dir request_output_dir raw_output_uri =
    if is_empty request_output_dir then raw_output_uri else request_output_dir

module _ {D : Type 0} where
  abbrev pub started_with :
      Result (RecorderImpl D)
      → Outside
      → Option (RecorderImpl D)
      → Result (Unit {0}) × Option (RecorderImpl D)
  started_with (throw e) out old = (throw e, old)
  started_with (ok r) out old = let (res, r') = record_bag out r in (res, some r')

  -- createAndStartRecorder: the old recorder stays where the constructor throws.
  unfoldable pub create_and_start_recorder :
      Outside
      → StorageOptions
      → RecordOptions
      → CustomOptions D
      → Option (RecorderImpl D)
      → Result (Unit {0}) × Option (RecorderImpl D)
  unfolding new_recorder record_bag
  create_and_start_recorder out storage options custom old =
      started_with (new_recorder out storage options custom.topic_throttle) out old

  unfoldable pub recorded_by_of : World → String → CustomOptions D → String
  unfolding get_default_recorded_by
  recorded_by_of w request_recorded_by custom =
      if not (is_empty request_recorded_by)
      then request_recorded_by
      else if not (is_empty custom.recorded_by)
      then custom.recorded_by
      else get_default_recorded_by w

  abbrev pub start_answer :
      String → Result (Unit {0}) × Option (RecorderImpl D) → Node D → Response × Node D
  start_answer uri (throw e, r) n =
      (refused ("Failed to start recording: " <> e), record n { recorder = r })
  start_answer uri (ok u, r) n = (
    record { success = true; message = "Recording started."; text = uri },
    record n { recorder = r },
  )

  abbrev pub start_at : Result String → World → String → Node D → Response × Node D
  start_at (throw e) w request_recorded_by n = (refused ("Failed to start recording: " <> e), n)
  start_at (ok uri) w request_recorded_by n =
      let by = recorded_by_of w request_recorded_by n.custom_options in
      let storage = record n.storage_options {
        uri = uri;
        custom_data = Map.insert "recorded_by" by n.storage_options.custom_data;
      } in
      start_answer uri
        (create_and_start_recorder w.at_start storage n.record_options n.custom_options n.recorder)
        (record n { storage_options = storage })

  unfoldable pub handle_start_recording : World → String → String → Node D → Response × Node D
  unfolding create_and_start_recorder recorded_by_of resolve_output_directory
  handle_start_recording w request_output_dir request_recorded_by n =
      if in_recording n.recorder
      then (refused "Already recording. Stop first.", n)
      else start_at
          (resolve_output_directory w.fs (requested_dir request_output_dir n.raw_output_uri)) w
          request_recorded_by n

  abbrev pub stop_answer : Outcome D → Node D → Response × Node D
  stop_answer (throw e, r) n = (
    record {
      success = false;
      message = "Failed to stop recording: " <> e;
      text = n.storage_options.uri;
    },
    record n { recorder = some r },
  )
  stop_answer (ok u, r) n = (
    record { success = true; message = "Recording stopped."; text = n.storage_options.uri },
    record n { recorder = none },
  )

  abbrev pub stop_or_refuse : Option (RecorderImpl D) → World → Node D → Response × Node D
  stop_or_refuse none w n = (refused "Not currently recording.", n)
  stop_or_refuse (some r) w n =
      if not r.in_recording
      then (refused "Not currently recording.", n)
      else stop_answer (stop w.at_stop r) n

  unfoldable pub handle_stop_recording : World → Node D → Response × Node D
  unfolding stop
  handle_stop_recording w n = stop_or_refuse n.recorder w n

abbrev pub preset_path : World → String → String → String
preset_path w config_path name = w.fs.join (w.fs.parent_path config_path) (name <> ".yaml")

abbrev found_preset : Option String → String → Result String
found_preset none path = throw ("Preset file not found: " <> path)
found_preset (some yaml) path = ok yaml

-- The text to apply, or the message of an early return.
unfoldable pub resolve_yaml : World → String → String → String → Result String
resolve_yaml w config_path config_yaml preset_name =
    let path = preset_path w config_path preset_name in
    if is_empty preset_name
    then ok config_yaml
    else if is_empty config_path
    then throw ("Cannot apply preset '" <> preset_name <> "': no config file loaded.")
    else found_preset (w.read_file path) path

module _ {N D : Type 0} (y : Yaml N D) (profile_default : Qos) where
  abbrev pub node_options : Node D → Options D
  node_options n = record {
    custom = n.custom_options;
    recording = n.record_options;
    storage = n.storage_options;
  }

  -- The node with the new options, and the active bag path kept.
  unfoldable pub adopt : String → Options D → Node D → Node D
  adopt preset_name o n = record n {
    custom_options = record o.custom { active_preset = preset_name };
    record_options = o.recording;
    raw_output_uri = if is_empty o.storage.uri then n.raw_output_uri else o.storage.uri;
    storage_options = record o.storage { uri = n.storage_options.uri };
  }

  abbrev pub applied : String → Node D → Option Response × Node D
  applied message n = (
    some (record {
      success = true;
      message = message;
      text = serialize_config_to_yaml y (node_options n) n.raw_output_uri;
    }),
    n,
  )

  abbrev failed : String → Node D → Option Response × Node D
  failed e n = (some (refused ("Failed to apply config: " <> e)), n)

  abbrev pub restart_answer :
      Result (Unit {0}) × Option (RecorderImpl D) → Node D → Option Response × Node D
  restart_answer (throw e, r) n = failed e (record n { recorder = r })
  restart_answer (ok u, r) n =
      applied "Config applied, recording restarted." (record n { recorder = r })

  abbrev pub restart_at : Result String → World → Node D → Option Response × Node D
  restart_at (throw e) w n = failed e n
  restart_at (ok uri) w n =
      let storage = record n.storage_options { uri = uri } in
      restart_answer
        (create_and_start_recorder w.at_start storage n.record_options n.custom_options n.recorder)
        (record n { storage_options = storage })

  abbrev pub restarted : Outcome D → World → String → Options D → Node D → Option Response × Node D
  restarted (throw e, r) w preset_name o n = failed e (record n { recorder = some r })
  restarted (ok u, r) w preset_name o n =
      let n' = adopt preset_name o (record n { recorder = none }) in
      restart_at (resolve_output_directory w.fs n'.raw_output_uri) w n'

  -- The hot update. `none`: the call does not return from update_record_options.
  abbrev pub hot_updated : Bool × RecorderImpl D → Node D → Option Response × Node D
  hot_updated (false, r) n = (none, record n { recorder = some r })
  hot_updated (true, r) n =
      applied "Config applied, new topics will be added to current recording."
        (record n { recorder = some (update_throttle_configs n.custom_options.topic_throttle r) })

  abbrev pub apply_to :
      Option (RecorderImpl D)
      → World
      → Bool
      → String
      → Options D
      → Node D
      → Option Response × Node D
  apply_to none w restart preset_name o n = applied "Config applied." (adopt preset_name o n)
  apply_to (some r) w restart preset_name o n =
      if not r.in_recording
      then applied "Config applied." (adopt preset_name o n)
      else if restart
      then restarted (stop w.at_stop r) w preset_name o n
      else hot_updated (update_record_options w.at_stop o.recording r) (adopt preset_name o n)

  abbrev pub apply_parsed :
      Bool × Options D → World → Bool → String → Node D → Option Response × Node D
  apply_parsed (false, o) w restart preset_name n =
      (some (refused "Failed to parse YAML config."), n)
  apply_parsed (true, o) w restart preset_name n = apply_to n.recorder w restart preset_name o n

  abbrev pub apply_resolved :
      Result String → World → Bool → String → Node D → Option Response × Node D
  apply_resolved (throw message) w restart preset_name n = (some (refused message), n)
  apply_resolved (ok yaml) w restart preset_name n =
      apply_parsed
        (parse_yaml_config_from_string y w.at_start.rmw_format profile_default yaml
          (node_options n))
        w restart preset_name n

  unfoldable pub handle_apply_config :
      World → String → Bool → String → Node D → Option Response × Node D
  unfolding resolve_yaml parse_yaml_config_from_string adopt create_and_start_recorder stop
      update_record_options update_throttle_configs serialize_config_to_yaml
      resolve_output_directory
  handle_apply_config w config_yaml restart preset_name n =
      apply_resolved (resolve_yaml w n.custom_options.config_path config_yaml preset_name) w restart
        preset_name n
