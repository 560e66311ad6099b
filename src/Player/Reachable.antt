-- ===== src/Player/Reachable.antt =====
-- The state of a player agrees with its timer, its buffered message and its reader, wherever its calls
-- lead.
use hector_recorder.Common.{refl, if_both}
use hector_recorder.Player.{Rosbag, Doubles, Player}
use hector_recorder.Player.Loading.{stop, new_player}
use hector_recorder.Player.Playing.{plays}
use hector_recorder.Player.Control.{set_rate, set_looping, set_clock_enabled, set_topic_enabled}
use hector_recorder.Player.Steps.{
  Step, loads, plays, pauses, resumes, stops, seeks, steps_forward, sets_rate, sets_looping,
  sets_clock, enables_topic, ticks, Reach, here, next,
}
use hector_recorder.Player.Invariant.{Consistent, on_playback_tick-Consistent}
use hector_recorder.Player.Keeping.{
  load-Consistent, play-Consistent, pause-Consistent, resume-Consistent, Stopped-Consistent,
  stop-Stopped, seek-Consistent, step_forward-Consistent, same_control,
}

module _ {R Q D : Type 0} (w : Rosbag R Q) (d : Doubles D) where
  Step-Consistent : {p p' : Player R Q D} → Step w d p p' → Consistent p → Consistent p'
  unfolding set_rate set_looping set_clock_enabled set_topic_enabled
  Step-Consistent (loads bag_path p) c = load-Consistent w d bag_path p c.awake
  Step-Consistent (plays filter now p) c = play-Consistent w d filter now p c
  Step-Consistent (pauses p) c = pause-Consistent w d p c
  Step-Consistent (resumes now p) c = resume-Consistent w d now p c
  Step-Consistent (stops p) c = Stopped-Consistent w d (stop p) (stop-Stopped w d p c.awake)
  Step-Consistent (seeks seconds now p) c = seek-Consistent w d seconds now p c
  Step-Consistent (steps_forward p) c = step_forward-Consistent w d p c
  Step-Consistent (sets_rate rate now p) c =
      if_both Consistent _ p _ c (same_control w d p _ refl refl refl refl refl c)
  Step-Consistent (sets_looping looping p) c = same_control w d p _ refl refl refl refl refl c
  Step-Consistent (sets_clock enabled p) c =
      if_both Consistent _ p _ c (same_control w d p _ refl refl refl refl refl c)
  Step-Consistent (enables_topic topic enabled p) c =
      same_control w d p _ refl refl refl refl refl c
  Step-Consistent (ticks fuel clocks p p' t e) c =
      on_playback_tick-Consistent w d fuel clocks p p' t c e

  Reach-Consistent : {p p' : Player R Q D} → Reach w d p p' → Consistent p → Consistent p'
  Reach-Consistent here c = c
  Reach-Consistent (next reach step) c = Step-Consistent step (Reach-Consistent reach c)

  -- In every state that a new player reaches by calls in any order and by the ticks of its timer, the
  -- timer is active exactly in "playing", a message is buffered only in "playing" or "paused", no bag
  -- is open in "idle", and the player is neither "loading" nor inside stop().
  pub reachable-Consistent : {p : Player R Q D} → Reach w d (new_player d) p → Consistent p
  unfolding new_player
  reachable-Consistent reach =
      Reach-Consistent reach
        (record { timer = refl; buffered = refl; open_only = refl; settled = refl; awake = refl })
