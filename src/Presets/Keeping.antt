-- ===== src/Presets/Keeping.antt =====
-- What is saved is loaded: save, load and remove of rqml_recorder/src/preset_store.cpp.
use mathlib.Core.Bool.{true≢false}
use text.Mathlib.TextLemmas.{append_cancel_left, append_cancel_right}
use hector_recorder.Common.{
  String, Bool, true, false, not, ◌&&◌, ◌≡◌, ◌≢◌, refl, sym, ap, ◌∙◌, none, some, arith, if_cases,
  if_both, eq_iff, if◌then◌else◌,
}
use hector_recorder.Common.Map
use hector_recorder.Common.Map.{Map, lookup-insert_self, lookup-insert_ne, lookup-erase}
use text.Mathlib.TextPositions.{eq_refl}
use hector_recorder.Presets.{
  Disk, is_valid_preset_name, preset_path, load, save, remove, text_or_empty,
}

module _ (disk : Disk) where
  preset_path_inj :
      (name other : String) → preset_path disk name ≡ preset_path disk other → name ≡ other
  unfolding preset_path
  preset_path_inj name other h = append_cancel_right name other ".yaml" (append_cancel_left _ _ _ h)

  load_congr :
      (files files' : Map String) (name : String)
      → Map.lookup (preset_path disk name) files ≡ Map.lookup (preset_path disk name) files'
      → load disk files name ≡ load disk files' name
  unfolding load
  load_congr files files' name h =
      ap
        (λ o.
          if not (is_valid_preset_name name)
          then ""
          else if not (disk.readable (preset_path disk name))
          then ""
          else text_or_empty disk o)
        h

  load_there :
      (files : Map String) (name text : String)
      → is_valid_preset_name name ≡ true
      → disk.readable (preset_path disk name) ≡ true
      → Map.lookup (preset_path disk name) files ≡ some text
      → load disk files name ≡ text
  unfolding load
  load_there files name text v r h = rw (v, r, h) refl

  load_gone :
      (files : Map String) (name : String)
      → Map.lookup (preset_path disk name) files ≡ none
      → load disk files name ≡ ""
  unfolding load
  load_gone files name h = rw h (
      if_both (λ text. text ≡ "") (not (is_valid_preset_name name)) ""
        (if not (disk.readable (preset_path disk name)) then "" else "") refl
        (if_both (λ text. text ≡ "") (not (disk.readable (preset_path disk name))) "" "" refl refl))

  -- What an operation that answers with `x` leaves of the files, of which `text` is the preset's own.
  abbrev Leaves : String → String → Map String → Bool × Map String → Type 0
  Leaves name text files x =
      (x.0 ≡ true → load disk x.1 name ≡ text)
      × (x.0 ≡ false → x.1 ≡ files)
      × ((other : String) → other ≢ name → load disk x.1 other ≡ load disk files other)

  nothing-Leaves : (name text : String) (files : Map String) → Leaves name text files (false, files)
  nothing-Leaves name text files = (λ h. absurd (true≢false (sym h)), λ h. refl, λ other n. refl)

  -- A preset that was saved is loaded as it was, if all of its text reached the file and the file can be
  -- read, and every other preset is loaded as before. Where saving reports failure, no file has changed.
  pub save_load :
      (name yaml : String) (files : Map String)
      → disk.stored (preset_path disk name) yaml ≡ yaml
      → disk.readable (preset_path disk name) ≡ true
      → let (saved, files') = save disk name yaml files in
        (saved ≡ true → load disk files' name ≡ yaml)
        × (saved ≡ false → files' ≡ files)
        × ((other : String) → other ≢ name → load disk files' other ≡ load disk files other)
  unfolding save
  save_load name yaml files h readable =
      let path = preset_path disk name in
      if_cases (Leaves name yaml files) (not (is_valid_preset_name name)) (false, files) _
        (λ b. nothing-Leaves name yaml files)
        (λ v.
          if_both (Leaves name yaml files) (not (disk.opens path)) (false, files) _
            (nothing-Leaves name yaml files)
            (
              λ t.
                  load_there _ name yaml (ground arith) readable
                    (lookup-insert_self path (disk.stored path yaml) files ∙ ap some h),
              λ f. absurd (true≢false f),
              λ other n. load_congr _ files other (
                  lookup-insert_ne path (preset_path disk other) (disk.stored path yaml) files
                    (λ e. n (sym (preset_path_inj name other e)))),
            ))

  -- A preset that was removed is loaded as an empty text, and every other preset as before. Where
  -- removing reports failure, no file has changed.
  pub remove_load :
      (name : String) (files : Map String)
      → let (removed, files') = remove disk name files in
        (removed ≡ true → load disk files' name ≡ "")
        × (removed ≡ false → files' ≡ files)
        × ((other : String) → other ≢ name → load disk files' other ≡ load disk files other)
  unfolding remove
  remove_load name files =
      let path = preset_path disk name in
      if_both (Leaves name "" files) (not (is_valid_preset_name name)) (false, files) _
        (nothing-Leaves name "" files)
        (if_both (Leaves name "" files) (Map.contains path files && disk.removes path) _
          (false, files)
          (
            λ t. load_gone _ name (ground (arith, lookup-erase path path files, eq_refl path)),
            λ f. absurd (true≢false f),
            λ other n. load_congr _ files other (
                ground (
                  arith,
                  lookup-erase path (preset_path disk other) files,
                  eq_iff path (preset_path disk other),
                  preset_path_inj name other,
                  n,
                )),
          )
          (nothing-Leaves name "" files))
