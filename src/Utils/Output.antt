-- ===== src/Utils/Output.antt =====
-- resolveOutputDirectory: where a new bag goes. std::filesystem and the clock are the parameter
-- `FileSystem`; `depth` bounds how often a path has a parent of its own.
use hector_recorder.Common.{
  ◌==◌, ℕ, zero, suc, String, ◌<>◌, Bool, false, ◌&&◌, ◌||◌, not, Option, Result, ok, throw, str_eq,
  is_empty, if◌then◌else◌,
}
use hector_recorder.Utils.Expand.{expand_user_and_env}
use Prim.Native.Char.{code}

pub record FileSystem : Type 0 where
  pub current_path : String
  pub local_time : String
  pub getenv : String → Option String
  pub exists : String → Bool
  pub is_directory : String → Bool
  pub is_regular_file : String → Bool
  pub lexically_normal : String → String
  pub parent_path : String → String
  pub join : String → String → String
  pub depth : String → ℕ
  pub create_directories : String → Result (Unit {0})

unfoldable pub is_rosbag_dir : FileSystem → String → Bool
is_rosbag_dir fs dir =
    let meta = fs.join dir "metadata.yaml" in fs.exists meta && fs.is_regular_file meta

-- What the loop of find_rosbag_ancestor comes to.
pub data Ancestor : Type 0 where
  found : String → Ancestor
  clear out_of_fuel : Ancestor

unfoldable pub is_bag_at : FileSystem → String → Bool
unfolding is_rosbag_dir
is_bag_at fs p = fs.exists p && fs.is_directory p && is_rosbag_dir fs p

unfoldable pub climb : FileSystem → ℕ → String → Ancestor
unfolding is_bag_at
climb fs zero p = out_of_fuel
climb fs (suc fuel) p =
    let parent = fs.parent_path p in
    let above = climb fs fuel parent in
    if is_bag_at fs p then found p else if str_eq parent p || is_empty parent then clear else above

unfoldable pub find_rosbag_ancestor : FileSystem → String → Ancestor
unfolding climb
find_rosbag_ancestor fs dir = if is_empty dir then clear else climb fs (suc (fs.depth dir)) dir

abbrev pub ends_in_slash : String → Bool
ends_in_slash String.[] = false
ends_in_slash (String.◌∷◌ c String.[]) = code c == b'/'
ends_in_slash (String.◌∷◌ c (String.◌∷◌ d s)) = ends_in_slash (String.◌∷◌ d s)

abbrev stamped : FileSystem → String
stamped fs = "rosbag2_" <> fs.local_time

-- The choice of the target.
unfoldable pub choose_target : FileSystem → Bool → String → Result String
unfolding is_rosbag_dir
choose_target fs trailing expanded =
    let p = fs.lexically_normal expanded in
    let par = fs.parent_path p in
    if is_empty expanded
    then ok (fs.join fs.current_path (stamped fs))
    else if fs.exists p
    then if not (fs.is_directory p)
      then throw ("Specified output path exists but is not a directory: " <> p)
      else if is_rosbag_dir fs p
      then ok (fs.join par (stamped fs))
      else ok (fs.join p (stamped fs))
    else if is_empty par
    then ok (fs.join fs.current_path p)
    else if fs.exists par && not (fs.is_directory par)
    then throw ("Specified output parent exists but is not a directory: " <> par)
    else ok (if trailing then fs.join p (stamped fs) else p)

abbrev pub created : Result (Unit {0}) → String → String → Result String
created (ok u) container target = ok target
created (throw e) container target =
    throw ("Failed to create parent directories for '" <> container <> "': " <> e)

abbrev pub place : FileSystem → Ancestor → String → String → Result String
place fs (found bad) container target =
    throw ("Cannot place a new rosbag inside an existing rosbag directory: " <> bad)
place fs out_of_fuel container target = throw "out of fuel"
place fs clear container target =
    if fs.exists target
    then throw ("Target directory already exists: " <> target)
    else if not (is_empty container) && not (fs.exists container)
    then created (fs.create_directories container) container target
    else ok target

abbrev pub place_chosen : FileSystem → Result String → Result String
place_chosen fs (throw e) = throw e
place_chosen fs (ok target) =
    let container = fs.parent_path target in
    place fs (find_rosbag_ancestor fs container) container target

unfoldable pub resolve_output_directory : FileSystem → String → Result String
unfolding choose_target find_rosbag_ancestor expand_user_and_env
resolve_output_directory fs output_dir =
    place_chosen fs
      (choose_target fs (ends_in_slash output_dir) (expand_user_and_env fs.getenv output_dir))
