-- ===== src/Recorder/Splitting.antt =====
-- The files that the recorder lists, and the splits that the event thread announces.
use hector_recorder.Common.{String, true, false, ◌≡◌, sym, ap, ◌∙◌, List, [], ◌∷◌, ◌++◌, arith}
use mathlib.Core.List.{append-nil, append_assoc}
use hector_recorder.Recorder.{RecorderImpl, SplitInfo}
use hector_recorder.Recorder.Control.{event_thread_step, write_split_callback}

pub record Ready {D : Type 0} (s : RecorderImpl D) : Type 0 where
  pub running : s.event_thread_running ≡ true
  pub staying : s.event_publisher_thread_should_exit ≡ false

-- Splits, each with a round of the event thread after it.
unfoldable pub split_and_announce : {D : Type 0} → List SplitInfo → RecorderImpl D → RecorderImpl D
split_and_announce [] s = s
split_and_announce (info ∷ infos) s =
    split_and_announce infos (event_thread_step (write_split_callback info s))

abbrev pub opened_files : List SplitInfo → List String
opened_files [] = []
opened_files (info ∷ infos) = info.opened_file ∷ opened_files infos

announce_step :
    {D : Type 0} (info : SplitInfo) (s : RecorderImpl D)
    → Ready s
    → let s' = event_thread_step (write_split_callback info s) in
      Ready s'
      × (s'.files ≡ s.files ++ info.opened_file ∷ [])
      × (s'.write_split_has_occurred ≡ false)
unfolding event_thread_step write_split_callback
announce_step info s r = ground arith

-- While the event thread runs and has a round after each split, the list of files grows by the file
-- that each split opened, in order; the event thread goes on; and if no split was pending before, none
-- is afterwards.
pub split_and_announce_files :
    {D : Type 0} (infos : List SplitInfo) (s : RecorderImpl D)
    → Ready s
    → let s' = split_and_announce infos s in
      (s'.files ≡ s.files ++ opened_files infos)
      × (s.write_split_has_occurred ≡ false → s'.write_split_has_occurred ≡ false)
      × Ready s'
unfolding split_and_announce
split_and_announce_files [] s r = (sym (append-nil s.files), λ h. h, r)
split_and_announce_files (info ∷ infos) s r =
    let (r', added, announced) = announce_step info s r in
    let (files, calm, r'') =
      split_and_announce_files infos (event_thread_step (write_split_callback info s)) r' in
    (
      files
          ∙ ap (λ (fs : List String). fs ++ opened_files infos) added
          ∙ append_assoc s.files (info.opened_file ∷ []) (opened_files infos),
      λ h. calm announced,
      r'',
    )
