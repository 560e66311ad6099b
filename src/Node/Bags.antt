-- ===== src/Node/Bags.antt =====
-- handleDeleteBag, handleGetPresetConfig and handleSaveConfig of
-- hector_recorder/src/service_handlers.cpp.
use hector_recorder.Common.{
  String, ◌<>◌, Bool, true, false, not, Option, none, some, Result, ok, throw, is_empty,
  if◌then◌else◌, ◌≡◌, arith, refl,
}
use hector_recorder.Node.{Response, World, refused}
use hector_recorder.Node.Handlers.{preset_path}

-- What fs::remove_all answers: how many were removed, as a text, or the message of an error code.
abbrev pub removal : Result String → String → Bool × Response
removal (throw e) bag_path = (true, refused ("Failed to delete: " <> e))
removal (ok count) bag_path = (
  true,
  record {
    success = true;
    message = "Deleted " <> bag_path <> " (" <> count <> " files removed)";
    text = "";
  },
)

-- The first part says whether remove_all is called on the path.
unfoldable pub handle_delete_bag :
    (String → Bool) → (String → Result String) → World → String → Bool → Bool × Response
handle_delete_bag metadata_file_exists remove_all w bag_path confirm =
    if not confirm
    then (false, refused "Delete not confirmed. Set confirm=true to actually delete.")
    else if not (w.fs.is_directory bag_path)
    then (false, refused ("Not a directory: " <> bag_path))
    else if not (metadata_file_exists bag_path)
    then (false, refused ("Not a valid rosbag directory (no metadata.yaml): " <> bag_path))
    else removal (remove_all bag_path) bag_path

abbrev preset_answer : Option String → String → Response
preset_answer none path = refused ("Preset file not found: " <> path)
preset_answer (some yaml) path = record { success = true; message = "OK"; text = yaml }

unfoldable pub handle_get_preset_config : World → String → String → Response
handle_get_preset_config w config_path name =
    let path = preset_path w config_path name in
    if is_empty config_path
    then refused "No config file loaded — cannot resolve preset directory."
    else preset_answer (w.read_file path) path

removal_success :
    (r : Result String) (bag_path : String)
    → ((removal r bag_path).1.success ≡ true)
    → (count : String) × (r ≡ ok count)
removal_success (throw e) bag_path h = cc
removal_success (ok count) bag_path h = (count, refl)

-- `remove_all` is only called with the confirmation, and only on a directory with a metadata file; the
-- call succeeds exactly where, beyond that, the removal does.
pub delete_only_bags :
    (metadata_file_exists : String → Bool) (remove_all : String → Result String) (w : World)
    (bag_path : String) (confirm : Bool)
    → let (removes, response) =
        handle_delete_bag metadata_file_exists remove_all w bag_path confirm in
      (removes ≡ true
        → (confirm ≡ true)
          × (w.fs.is_directory bag_path ≡ true)
          × (metadata_file_exists bag_path ≡ true))
      × (response.success ≡ true
          → (removes ≡ true) × ((count : String) × (remove_all bag_path ≡ ok count)))
unfolding handle_delete_bag
delete_only_bags metadata_file_exists remove_all w bag_path confirm =
    (ground arith, ground (arith, removal_success (remove_all bag_path) bag_path))
