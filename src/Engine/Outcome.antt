-- ===== src/Engine/Outcome.antt =====
-- How startRecording ends.
use text.Mathlib.TextLemmas.{cons-append}
use hector_recorder.Common.{
  String, ◌<>◌, true, false, ◌≡◌, refl, ap, ◌⊎◌, inl, inr, is_empty, List, Option, none, some,
  Result, ok, throw, if_cases, null,
}
use hector_recorder.Engine.{recording, Doubles, World, Engine}
use hector_recorder.Engine.Starting.{
  is_idle, closed_empty, begun, opened, with_directory, start_recording,
}
use hector_recorder.Engine.Control.{is_open}
use hector_recorder.Engine.Keeping.{Consistent, same_control}
use hector_recorder.Engine.Started.{Collects, subscribe_all-Collects, emptied-Collects}

is_empty-append : (s t : String) → is_empty s ≡ false → is_empty (s <> t) ≡ false
is_empty-append String.[] t h = cc
is_empty-append (String.◌∷◌ c s) t h = ap is_empty (cons-append c s t)

module _ {Q D : Type 0} (w : World Q) (d : Doubles D) where
  abbrev pub Records : Engine Q D → Type 0
  Records e = (e.state ≡ recording) × (null e.subscriptions ≡ false) × (is_open e.writer ≡ true)

  abbrev pub Refuses : Engine Q D → Type 0
  Refuses e = (is_idle e.state ≡ true) × (is_empty e.error_message ≡ false)

  abbrev RecordsOrRefuses : Result (Unit {0}) × Engine Q D → Type 0
  RecordsOrRefuses x = Records x.1 ⊎ Refuses x.1

  closed_empty-Refuses :
      (r : Result (Unit {0})) (e : Engine Q D) → Refuses e → RecordsOrRefuses (closed_empty w d r e)
  closed_empty-Refuses (throw what) e h = inr h
  closed_empty-Refuses (ok u) e h = inr h

  begun_ends : (e : Engine Q D) → Collects w d e → RecordsOrRefuses (begun w d e)
  begun_ends e c =
      if_cases RecordsOrRefuses (null e.subscriptions) _ _
        (λ h. closed_empty-Refuses w.close_writer _ (c.still, refl)) (λ h. inl (refl, h, c.has_bag))

  opened_ends :
      (r : Result (Unit {0})) (topics : List String) (bag_path : String) (e : Engine Q D)
      → is_idle e.state ≡ true
      → Consistent d e
      → RecordsOrRefuses (opened w d r topics bag_path e)
  unfolding opened
  opened_ends (throw what) topics bag_path e h c =
      inr (h, is_empty-append "Failed to open bag for writing: " what refl)
  opened_ends (ok u) topics bag_path e h c =
      begun_ends _ (subscribe_all-Collects w d topics _ (emptied-Collects w d bag_path e h c))

  with_directory_ends :
      (o : Option String) (topics : List String) (dir : String) (e : Engine Q D)
      → is_idle e.state ≡ true
      → Consistent d e
      → RecordsOrRefuses (with_directory w d o topics dir e)
  with_directory_ends (some what) topics dir e h c =
      inr (h, is_empty-append "Failed to create output directory: " what refl)
  with_directory_ends none topics dir e h c = opened_ends _ topics (dir <> w.stamp) e h c

  -- A start that is asked of a recorder in "idle" either leaves it in "recording", with a bag open and
  -- a topic subscribed, or in "idle" with a text that says what failed, even where closing the writer
  -- throws. In any other state a start changes nothing but that text.
  pub start_recording_ends :
      (topics : List String) (output_dir : String) (e : Engine Q D)
      → Consistent d e
      → let (r, e') = start_recording w d topics output_dir e in
        (is_idle e.state ≡ true → Records e' ⊎ Refuses e')
        × (is_idle e.state ≡ false
            → e' ≡ record e { error_message = "Already recording — stop first" })
  unfolding start_recording
  start_recording_ends topics output_dir e c = (
    λ h. rw h (
        if_cases RecordsOrRefuses (null topics) _ _ (λ n. inr (h, refl))
          (λ n.
            with_directory_ends _ topics _ (record e { error_message = ""; node = true }) h
              (same_control d e _ refl refl refl refl refl refl c.logged c))),
    λ h. rw h refl,
  )
