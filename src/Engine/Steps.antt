-- ===== src/Engine/Steps.antt =====
-- The steps of a recorder of the plugin: the calls of its user, the ticks of its timer, and the
-- callbacks of its subscriptions, in any order.
use hector_recorder.Common.{ℕ, String, true, ◌≡◌, List}
use hector_recorder.Common.Map
use hector_recorder.Engine.{Doubles, World, Engine}
use hector_recorder.Engine.Starting.{start_recording}
use hector_recorder.Engine.Control.{
  set_output_dir, set_recorded_by, stop_recording, pause_recording, resume_recording, split_bag,
  on_message, on_stats_tick,
}

module _ {Q D : Type 0} (d : Doubles D) where
  pub data Step : Engine Q D → Engine Q D → Type 0 where
    starts :
        (w : World Q) (topics : List String) (output_dir : String) (e : Engine Q D)
        → Step e (start_recording w d topics output_dir e).1
    stops : (e : Engine Q D) → Step e (stop_recording d e)
    pauses : (e : Engine Q D) → Step e (pause_recording d e)
    resumes : (e : Engine Q D) → Step e (resume_recording d e)
    splits : (w : World Q) (e : Engine Q D) → Step e (split_bag d w e)
    sets_output_dir : (dir : String) (e : Engine Q D) → Step e (set_output_dir d dir e)
    sets_recorded_by : (name : String) (e : Engine Q D) → Step e (set_recorded_by d name e)
    receives :
        (w : World Q) (name : String) (size : ℕ) (e : Engine Q D)
        → Map.contains name e.subscriptions ≡ true
        → Step e (on_message d w name size e)
    ticks : (now : ℕ) (e : Engine Q D) → Step e (on_stats_tick d now e)

  pub data Reach (e : Engine Q D) : Engine Q D → Type 0 where
    here : Reach e e
    next : {f g : Engine Q D} → Reach e f → Step f g → Reach e g
