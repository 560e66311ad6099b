-- ===== src/Scanner/Bags.antt =====
-- Listing, reading and deleting bags: readBagInfo, listBags, getBagDetails and deleteBag of
-- rqml_recorder/src/local_bag_scanner.cpp.
use mathlib.Core.Path.{subst}
use mathlib.Core.Option.{some_inj}
use hector_recorder.Common.{
  if_cases, ℕ, ◌+◌, ◌%◌, ◌^◌, ◌/◌, String, ◌<>◌, Bool, true, false, not, ◌≡◌, refl, List, [], ◌∷◌,
  Option, none, some, Result, ok, throw, is_empty, length, arith, if◌then◌else◌,
}
use hector_recorder.Common.Map
use hector_recorder.Engine.Starting.{expand_home}
use hector_recorder.Scanner.{
  TopicCount, Metadata, Child, Removal, removed, failed, thrown, Files, BagInfo,
}

unfoldable pub sum_uint64 : List ℕ → ℕ
sum_uint64 [] = 0
sum_uint64 (size ∷ sizes) = (size + sum_uint64 sizes) % 2 ^ 64

pub data Listed : Type 0 where
  not_a_directory : String → Listed
  bags : List BagInfo → Listed

pub data Details : Type 0 where
  refused : String → Details
  details : BagInfo → List TopicCount → Details

module _ (files : Files) where
  unfoldable pub directory_size : String → ℕ
  unfolding sum_uint64
  directory_size dir = sum_uint64 (files.sizes dir)

  unfoldable pub info_of : String → Result Metadata → Option BagInfo
  unfolding directory_size Map.get_or
  info_of bag_dir (throw what) = none
  info_of bag_dir (ok m) = some (record {
    name = files.filename bag_dir;
    path = bag_dir;
    size_bytes = directory_size bag_dir;
    storage_id = m.storage_identifier;
    topic_count = length m.topics_with_message_count;
    message_count = m.message_count;
    duration = m.duration;
    start_time = files.local_time (m.starting_time / 1_000_000_000);
    recorded_by = Map.get_or "recorded_by" "" m.custom_data;
  })

  unfoldable pub read_bag_info : String → Option BagInfo
  unfolding info_of
  read_bag_info bag_dir =
      if not (files.metadata_file_exists bag_dir)
      then none
      else info_of bag_dir (files.read_metadata bag_dir)

  abbrev append_info : Option BagInfo → List BagInfo → List BagInfo
  append_info none infos = infos
  append_info (some info) infos = info ∷ infos

  unfoldable pub infos_of : List Child → List BagInfo
  unfolding read_bag_info
  infos_of [] = []
  infos_of (child ∷ children) =
      let rest = infos_of children in
      if child.is_directory then append_info (read_bag_info child.path) rest else rest

  -- std::sort with the newest first; the order of equal times is left to it.
  unfoldable pub insert_info : BagInfo → List BagInfo → List BagInfo
  insert_info info [] = info ∷ []
  insert_info info (first ∷ infos) =
      let rest = insert_info info infos in
      if files.later first.start_time info.start_time then first ∷ rest else info ∷ first ∷ infos

  unfoldable pub newest_first : List BagInfo → List BagInfo
  unfolding insert_info
  newest_first [] = []
  newest_first (info ∷ infos) = insert_info info (newest_first infos)

  unfoldable pub scan_dir_of : String → String → String
  unfolding expand_home
  scan_dir_of path scan_path =
      let dir = expand_home files.home (if is_empty path then scan_path else path) in
      if files.metadata_file_exists dir then files.parent_path dir else dir

  unfoldable pub list_bags : String → String → Listed
  unfolding scan_dir_of infos_of newest_first
  list_bags path scan_path =
      let dir = scan_dir_of path scan_path in
      if not (files.is_directory dir)
      then not_a_directory ("Path is not a directory: " <> dir)
      else bags (newest_first (infos_of (files.children dir)))

  abbrev details_from : BagInfo → Result Metadata → Details
  details_from info (throw what) = refused ("Failed to read bag details: " <> what)
  details_from info (ok m) = details info m.topics_with_message_count

  abbrev details_of : String → String → Option BagInfo → Details
  details_of bag_path path none = refused ("Failed to read bag metadata from: " <> bag_path)
  details_of bag_path path (some info) = details_from info (files.read_metadata path)

  unfoldable pub get_bag_details : String → Details
  unfolding expand_home read_bag_info
  get_bag_details bag_path =
      let path = expand_home files.home bag_path in details_of bag_path path (read_bag_info path)

  abbrev removal : Removal → String → Bool × String
  removal (removed count) bag_path =
      (true, "Deleted " <> (bag_path <> (" (" <> (count <> " files removed)"))))
  removal (failed what) bag_path = (false, "Failed to delete: " <> what)
  removal (thrown what) bag_path = (false, "Failed to delete bag: " <> what)

  -- The first part is the path that remove_all is called on, if it is.
  unfoldable pub delete_bag : String → Option String × (Bool × String)
  unfolding expand_home
  delete_bag bag_path =
      let path = expand_home files.home bag_path in
      if not (files.is_directory path)
      then (none, (false, "Not a directory: " <> bag_path))
      else if not (files.metadata_file_exists path)
      then (none, (false, "Not a valid rosbag directory (no metadata.yaml): " <> bag_path))
      else (some path, removal (files.remove_all path) bag_path)

  removal_success :
      (r : Removal) (bag_path : String)
      → (removal r bag_path).0 ≡ true
      → (count : String) × (r ≡ removed count)
  removal_success (removed count) bag_path h = (count, refl)
  removal_success (failed what) bag_path h = cc
  removal_success (thrown what) bag_path h = cc

  abbrev Guarded : String → Option String × (Bool × String) → Type 0
  Guarded bag_path x =
      (path : String)
      → x.0 ≡ some path
      → (path ≡ expand_home files.home bag_path)
        × (files.is_directory path ≡ true)
        × (files.metadata_file_exists path ≡ true)
        × (x.1.0 ≡ true → (count : String) × (files.remove_all path ≡ removed count))

  -- remove_all is called only on a directory with a metadata file, the one that was asked for with
  -- its tilde replaced, and success means that the removal reported no error.
  pub delete_bag_safe :
      (bag_path path : String)
      → (delete_bag bag_path).0 ≡ some path
      → (path ≡ expand_home files.home bag_path)
        × (files.is_directory path ≡ true)
        × (files.metadata_file_exists path ≡ true)
        × ((delete_bag bag_path).1.0 ≡ true
            → (count : String) × (files.remove_all path ≡ removed count))
  unfolding delete_bag
  delete_bag_safe bag_path =
      let target = expand_home files.home bag_path in
      if_cases (Guarded bag_path) (not (files.is_directory target)) _ _ (λ n path h. cc)
        (λ y.
          if_cases (Guarded bag_path) (not (files.metadata_file_exists target)) _ _ (λ n path h. cc)
            (λ z path h.
              let same : target ≡ path = some_inj.0 h in
              subst
                (λ p.
                  (p ≡ target)
                  × (files.is_directory p ≡ true)
                  × (files.metadata_file_exists p ≡ true)
                  × ((removal (files.remove_all target) bag_path).0 ≡ true
                      → (count : String) × (files.remove_all p ≡ removed count)))
                same
                (
                  refl,
                  ground (arith, y),
                  ground (arith, z),
                  removal_success (files.remove_all target) bag_path,
                )))
