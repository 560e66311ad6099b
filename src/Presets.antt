-- ===== src/Presets.antt =====
-- PresetStore: rqml_recorder/src/preset_store.cpp. The files are a map from paths to texts; what the
-- file system allows, and what of a text reaches the file, is the parameter `Disk`. The signal
-- presetsChanged and the directory that is created are left out. Names and texts are ones that the
-- conversions between QString and std::string keep.
pub mod Keeping
mod Tests
use Prim.Native.Char.{code}
use hector_recorder.Common.{
  ℕ, String, ◌<>◌, Bool, true, false, not, ◌&&◌, ◌||◌, List, [], ◌∷◌, Option, none, some, is_empty,
  str_eq, ◌==◌, if◌then◌else◌,
}
use hector_recorder.Common.Map
use hector_recorder.Common.Map.{Map}

-- `entries` lists the names in a directory, each with whether it is a regular file; `extension` and
-- `stem` are those of fs::path.
pub record Disk : Type 0 where
  pub home_path : String
  pub opens : String → Bool
  pub readable : String → Bool
  pub stored : String → String → String
  pub removes : String → Bool
  pub entries : String → List (String × Bool)
  pub extension : String → String
  pub stem : String → String
  pub sorted : List String → List String

-- name.contains( c )
unfoldable pub contains_char : ℕ → String → Bool
contains_char x String.[] = false
contains_char x (String.◌∷◌ c s) = code c == x || contains_char x s

-- name.contains( ".." )
unfoldable pub contains_dots : String → Bool
contains_dots String.[] = false
contains_dots (String.◌∷◌ c String.[]) = false
contains_dots (String.◌∷◌ c (String.◌∷◌ c' s)) =
    code c == b'.' && code c' == b'.' || contains_dots (String.◌∷◌ c' s)

unfoldable pub is_valid_preset_name : String → Bool
unfolding contains_char contains_dots
is_valid_preset_name name =
    not (is_empty name)
    && (not (contains_char b'/' name) && not (contains_char b'\\' name) && not (contains_dots name))

module _ (disk : Disk) where
  unfoldable pub preset_dir : String
  preset_dir = disk.home_path <> "/.ros/hector_recorder_presets"

  unfoldable pub preset_path : String → String
  unfolding preset_dir
  preset_path name = (preset_dir <> "/") <> (name <> ".yaml")

  abbrev stems : List (String × Bool) → List String
  stems [] = []
  stems ((file, regular) ∷ files) =
      let rest = stems files in
      if regular && str_eq (disk.extension file) ".yaml" then disk.stem file ∷ rest else rest

  unfoldable pub preset_names : List String
  unfolding preset_dir
  preset_names = disk.sorted (stems (disk.entries preset_dir))

  abbrev pub text_or_empty : Option String → String
  text_or_empty none = ""
  text_or_empty (some text) = text

  unfoldable pub load : Map String → String → String
  unfolding is_valid_preset_name preset_path Map.lookup
  load files name =
      if not (is_valid_preset_name name)
      then ""
      else if not (disk.readable (preset_path name))
      then ""
      else text_or_empty (Map.lookup (preset_path name) files)

  unfoldable pub save : String → String → Map String → Bool × Map String
  unfolding is_valid_preset_name preset_path Map.insert
  save name yaml files =
      let path = preset_path name in
      if not (is_valid_preset_name name)
      then (false, files)
      else if not (disk.opens path)
      then (false, files)
      else (true, Map.insert path (disk.stored path yaml) files)

  unfoldable pub remove : String → Map String → Bool × Map String
  unfolding is_valid_preset_name preset_path Map.erase Map.contains
  remove name files =
      let path = preset_path name in
      if not (is_valid_preset_name name)
      then (false, files)
      else if Map.contains path files && disk.removes path
      then (true, Map.erase path files)
      else (false, files)
