-- ===== src/Player/Steps.antt =====
-- The steps of a player: the calls of its user, in any order, with the ticks of its timer while that is
-- active.
use hector_recorder.Common.{ℕ, String, Bool, true, ◌≡◌, List, some}
use hector_recorder.Player.{Rosbag, Doubles, Player}
use hector_recorder.Player.Loading.{load, stop}
use hector_recorder.Player.Playing.{on_playback_tick}
use hector_recorder.Player.Control.{
  set_rate, set_looping, set_clock_enabled, set_topic_enabled, play, pause, resume, seek,
  step_forward,
}

module _ {R Q D : Type 0} (w : Rosbag R Q) (d : Doubles D) where
  pub data Step : Player R Q D → Player R Q D → Type 0 where
    loads : (bag_path : String) (p : Player R Q D) → Step p (load w d bag_path p)
    plays : (filter : List String) (now : ℕ) (p : Player R Q D) → Step p (play w filter now p).1
    pauses : (p : Player R Q D) → Step p (pause p)
    resumes : (now : ℕ) (p : Player R Q D) → Step p (resume now p)
    stops : (p : Player R Q D) → Step p (stop p)
    seeks : (seconds : D) (now : ℕ) (p : Player R Q D) → Step p (seek d w seconds now p)
    steps_forward : (p : Player R Q D) → Step p (step_forward w p).1
    sets_rate : (rate : D) (now : ℕ) (p : Player R Q D) → Step p (set_rate d rate now p)
    sets_looping : (looping : Bool) (p : Player R Q D) → Step p (set_looping looping p)
    sets_clock : (enabled : Bool) (p : Player R Q D) → Step p (set_clock_enabled enabled p)
    enables_topic :
        (topic : String) (enabled : Bool) (p : Player R Q D)
        → Step p (set_topic_enabled topic enabled p)
    ticks :
        (fuel : ℕ) (clocks : ℕ → ℕ × ℕ) (p p' : Player R Q D)
        → p.timer_active ≡ true
        → on_playback_tick w d fuel clocks p ≡ some p'
        → Step p p'

  pub data Reach (p : Player R Q D) : Player R Q D → Type 0 where
    here : Reach p p
    next : {q r : Player R Q D} → Reach p q → Step q r → Reach p r
