-- ===== src/Node/Tests.antt =====
-- Service calls on concrete nodes.
use hector_recorder.Common.{ℕ, String, true, false, ◌≡◌, refl, [], none, some, Result, ok, throw}
use hector_recorder.Utils.Expand.{expand_user_and_env, expand_user, replace_env}
use hector_recorder.Utils.Output.{
  resolve_output_directory, choose_target, find_rosbag_ancestor, climb, is_bag_at, is_rosbag_dir,
}
use hector_recorder.Recorder.{RecorderImpl}
use hector_recorder.Recorder.Control.{new_recorder, expand_all}
use hector_recorder.Config.{Yaml}
use hector_recorder.Node.{Node, World, in_recording, refused}
use hector_recorder.Node.Handlers.{handle_start_recording, requested_dir, handle_apply_config}
use hector_recorder.Node.Shown.{allowed, serve, shown_state, to_stop, serve-allowed}
use hector_recorder.Node.Responses.{start_storage, failed_start_blocks}
use hector_recorder.Node.Applying.{GoesOn, apply_without_restart}
use hector_recorder.Samples.{
  files, calm, full, fresh, busy, default_qos, custom_options, record_options, storage_options,
}

abbrev world : World
world = record {
  fs = files;
  read_file = λ path. none;
  gethostname = some "robot";
  at_stop = calm;
  at_start = calm;
}

abbrev full_world : World
full_world = record world { at_start = full }

abbrev waiting : Node ℕ
waiting = record {
  recorder = none;
  custom_options = custom_options;
  record_options = record_options;
  storage_options = storage_options;
  raw_output_uri = "/bags/new";
}

abbrev working : Node ℕ
working = record waiting { recorder = some busy }

places_new : resolve_output_directory files (requested_dir "" "/bags/new") ≡ ok "/bags/new"
unfolding resolve_output_directory choose_target find_rosbag_ancestor climb is_bag_at is_rosbag_dir
    expand_user_and_env expand_user replace_env
places_new = refl

abbrev made : RecorderImpl ℕ
made = record fresh { storage_options = start_storage full_world "/bags/new" "" waiting }

makes :
    ◌≡◌ {A = Result (RecorderImpl ℕ)}
      (new_recorder full (start_storage full_world "/bags/new" "" waiting) record_options [])
      (ok made)
unfolding new_recorder expand_all
makes = refl

failed_start_blocks_example :
    let (response, n') = handle_start_recording full_world "" "" waiting in
    (response.success ≡ false)
    × (in_recording n'.recorder ≡ true)
    × ((w' : World) (dir' by' : String)
        → handle_start_recording w' dir' by' n' ≡ (refused "Already recording. Stop first.", n'))
failed_start_blocks_example =
    failed_start_blocks full_world "" "" waiting "/bags/new" "no space left on device" made refl
      places_new makes refl

serve-allowed_example :
    allowed to_stop
      (serve world "" "" to_stop working).0.success
      (shown_state (some busy))
      (shown_state (serve world "" "" to_stop working).1.recorder)
    ≡ true
serve-allowed_example = serve-allowed world "" "" to_stop working

-- Nothing parses.
abbrev broken : Yaml String ℕ
broken = record {
  get = λ n k. none;
  is_map = λ n. false;
  entries = λ n. [];
  elements = λ n. [];
  size = λ n. ok 0;
  index = λ n i. n;
  as_string = λ n. ok n;
  as_strings = λ n. ok [];
  as_bool = λ n. ok true;
  as_int = λ n. throw "bad conversion";
  as_int32 = λ n. throw "bad conversion";
  as_int64 = λ n. throw "bad conversion";
  as_uint64 = λ n. throw "bad conversion";
  as_double = λ n. throw "bad conversion";
  as_gibibytes = λ n. throw "bad conversion";
  le_zero = λ d. false;
  zero = 0;
  one = 1;
  load_file = λ path. throw "bad file";
  load = λ s. throw "bad document";
  emit = λ entries. "";
}

apply_without_restart_example :
    GoesOn busy "/bags/run"
      (handle_apply_config broken default_qos world "all_topics: [" false "" working).1
apply_without_restart_example =
    apply_without_restart broken default_qos world "all_topics: [" "" working busy refl
