-- ===== src/Engine/Reachable.antt =====
-- The state of a recorder of the plugin agrees with its bag, its subscriptions and its statistics,
-- wherever its steps lead.
use mathlib.Core.Bool.{true≢false}
use hector_recorder.Common.{not, ◌||◌, refl, if_both}
use hector_recorder.Engine.{Doubles, Engine}
use hector_recorder.Engine.Starting.{is_idle}
use hector_recorder.Engine.Control.{
  is_open, new_engine, set_output_dir, set_recorded_by, split_bag, on_stats_tick,
}
use hector_recorder.Engine.Steps.{
  Step, starts, stops, pauses, resumes, splits, sets_output_dir, sets_recorded_by, receives, ticks,
  Reach, here, next,
}
use hector_recorder.Engine.Keeping.{
  Consistent, same_control, stop_recording-Consistent, pause_recording-Consistent,
  resume_recording-Consistent, split_done-Consistent, on_message-Consistent, refresh_LoggedIn,
}
use hector_recorder.Engine.Started.{start_recording-Consistent}

module _ {Q D : Type 0} (d : Doubles D) where
  Step-Consistent : {e e' : Engine Q D} → Step d e e' → Consistent d e → Consistent d e'
  unfolding set_output_dir set_recorded_by split_bag on_stats_tick
  Step-Consistent (starts w topics output_dir e) c =
      start_recording-Consistent w d topics output_dir e c
  Step-Consistent (stops e) c = stop_recording-Consistent d e c
  Step-Consistent (pauses e) c = pause_recording-Consistent d e c
  Step-Consistent (resumes e) c = resume_recording-Consistent d e c
  Step-Consistent (splits w e) c =
      if_both (Consistent d) (is_idle e.state || not (is_open e.writer)) e _ c
        (split_done-Consistent d w.split_writer e c)
  Step-Consistent (sets_output_dir dir e) c =
      same_control d e _ refl refl refl refl refl refl c.logged c
  Step-Consistent (sets_recorded_by name e) c =
      same_control d e _ refl refl refl refl refl refl c.logged c
  Step-Consistent (receives w name size e h) c = on_message-Consistent d w name size e h c
  Step-Consistent (ticks now e) c =
      same_control d e _ refl refl refl refl refl refl
        (refresh_LoggedIn d now e.writer e.subscriptions e.topic_stats e.total_message_count
          c.logged)
        c

  Reach-Consistent : {e e' : Engine Q D} → Reach d e e' → Consistent d e → Consistent d e'
  Reach-Consistent here c = c
  Reach-Consistent (next reach step) c = Step-Consistent step (Reach-Consistent reach c)

  -- In every state that a new recorder of the plugin reaches by calls and messages in any order, the
  -- flag of the pause and the timer follow the state; in "idle" nothing is subscribed, and otherwise a
  -- bag is open. As long as a bag is open, every topic that is subscribed was created in it, every
  -- message in it went to a topic that was created before, and the counts that the statistics show, of
  -- each topic and in total, are the numbers of messages that were written to it.
  pub Engine-Consistent : {e : Engine Q D} → Reach d (new_engine d) e → Consistent d e
  unfolding new_engine
  Engine-Consistent reach = Reach-Consistent reach (record {
    flag = refl;
    awake = refl;
    timer = refl;
    quiet = λ h. refl;
    open_bag = λ h. absurd (true≢false h);
    logged = refl;
  })
