-- ===== src/Presets/Tests.antt =====
-- Presets on a disk that allows everything.
use hector_recorder.Common.{String, true, false, ◌≡◌, ◌≢◌, refl, [], ◌∷◌}
use hector_recorder.Common.Map.{Map}
use hector_recorder.Presets.{Disk, load, save}
use hector_recorder.Presets.Keeping.{save_load}

abbrev disk : Disk
disk = record {
  home_path = "/home/u";
  opens = λ path. true;
  readable = λ path. true;
  stored = λ path text. text;
  removes = λ path. true;
  entries = λ dir. [];
  extension = λ file. ".yaml";
  stem = λ file. file;
  sorted = λ names. names;
}

abbrev files : Map String
files = ("/home/u/.ros/hector_recorder_presets/old.yaml", "a: 1") ∷ []

save_load_example :
    ((save disk "new" "b: 2" files).0 ≡ true
      → load disk (save disk "new" "b: 2" files).1 "new" ≡ "b: 2")
    × ((save disk "new" "b: 2" files).0 ≡ false → (save disk "new" "b: 2" files).1 ≡ files)
    × ((other : String)
        → other ≢ "new"
        → load disk (save disk "new" "b: 2" files).1 other ≡ load disk files other)
save_load_example = save_load disk "new" "b: 2" files refl refl
