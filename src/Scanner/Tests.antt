-- ===== src/Scanner/Tests.antt =====
-- Completing a path in a directory with one child that matches.
use hector_recorder.Common.{◌≤◌, true, false, ◌≡◌, refl, List, [], ◌∷◌, some, throw, length, str_eq}
use hector_recorder.Scanner.{Child, Files, removed}
use hector_recorder.Engine.Starting.{expand_home}
use hector_recorder.Scanner.Completion.{
  complete_path, completions, completion, matches, without_prefix, complete_path_lists,
}

abbrev children : List Child
children =
    (record { path = "/home/u/bags"; filename = "bags"; is_directory = true })
    ∷ (record { path = "/home/u/.ros"; filename = ".ros"; is_directory = true })
    ∷ (record { path = "/home/u/b.txt"; filename = "b.txt"; is_directory = false })
    ∷ []

abbrev files : Files
files = record {
  home = some "/home/u";
  is_directory = λ path. str_eq path "/home/u";
  children = λ path. children;
  parent_path = λ path. "/home/u";
  filename = λ path. "b";
  sizes = λ path. [];
  metadata_file_exists = λ path. false;
  read_metadata = λ path. throw "no metadata";
  local_time = λ seconds. "";
  later = λ a b. false;
  remove_all = λ path. removed "0";
  sorted = λ names. names;
}

completes : complete_path files "~/b" ≡ "~/bags/" ∷ []
unfolding complete_path completions completion matches without_prefix expand_home
completes = refl

complete_path_lists_example : length (complete_path files "~/b") ≤ 20
complete_path_lists_example = (complete_path_lists files "~/b" (λ P xs h. h)).0
