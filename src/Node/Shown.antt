-- ===== src/Node/Shown.antt =====
-- The state that fillRecorderStatus of hector_recorder/src/service_handlers.cpp publishes, as a machine
-- of three states, and the moves between them.
use hector_recorder.Common.{
  Bool-cases, inl, inr, String, Bool, true, false, ◌≡◌, Option, none, some, arith,
}
use mathlib.Core.Path.{subst, sym}
use hector_recorder.Recorder.{RecorderImpl}
use hector_recorder.Recorder.Discovery.{stop_discovery}
use hector_recorder.Node.Responses.{start_busy, start_recording_success}
use hector_recorder.Recorder.Control.{stop, split, pause, resume}
use hector_recorder.Node.{Node, Response, World, in_recording}
use hector_recorder.Node.Handlers.{handle_start_recording, handle_stop_recording}
use hector_recorder.Node.Services.{on_pause_recording, on_resume_recording, on_split_bag}

pub data Shown : Type 0 where
  idle recording paused : Shown

abbrev pub shown_flags : Bool → Bool → Shown
shown_flags false p = idle
shown_flags true true = paused
shown_flags true false = recording

unfoldable pub shown_state : {D : Type 0} → Option (RecorderImpl D) → Shown
shown_state none = idle
shown_state (some r) = shown_flags r.in_recording r.paused

pub data Request : Type 0 where
  to_start to_stop to_pause to_resume to_split : Request

-- The moves that a request makes where it is answered with success, and where it is not.
abbrev pub succeeds : Request → Shown → Shown → Bool
succeeds to_start idle recording = true
succeeds to_start idle paused = true
succeeds to_stop recording idle = true
succeeds to_stop paused idle = true
succeeds to_pause recording paused = true
succeeds to_pause paused paused = true
succeeds to_resume recording recording = true
succeeds to_resume paused recording = true
succeeds to_split recording recording = true
succeeds to_split paused paused = true
succeeds _ _ _ = false

abbrev pub fails : Request → Shown → Shown → Bool
fails to_start idle t = true
fails to_start recording recording = true
fails to_start paused paused = true
fails to_stop idle idle = true
fails to_stop recording paused = true
fails to_stop paused paused = true
fails to_pause idle idle = true
fails to_resume idle idle = true
fails to_split idle idle = true
fails to_split recording recording = true
fails to_split paused paused = true
fails _ _ _ = false

abbrev pub allowed : Request → Bool → Shown → Shown → Bool
allowed q true s t = succeeds q s t
allowed q false s t = fails q s t

-- The handler of a request; a start has its two arguments.
unfoldable pub serve : {D : Type 0} → World → String → String → Request → Node D → Response × Node D
unfolding handle_start_recording handle_stop_recording on_pause_recording on_resume_recording
    on_split_bag
serve w dir by to_start n = handle_start_recording w dir by n
serve w dir by to_stop n = handle_stop_recording w n
serve w dir by to_pause n = on_pause_recording n
serve w dir by to_resume n = on_resume_recording n
serve w dir by to_split n = on_split_bag w n

module _ {D : Type 0} where
  -- A request with its answer moves what the node shows as the table says.
  abbrev pub Moves : Request → Node D → Response × Node D → Type 0
  Moves q n (response, n') =
      allowed q response.success (shown_state n.recorder) (shown_state n'.recorder) ≡ true

  pause-Moves : (n : Node D) → Moves to_pause n (on_pause_recording n)
  unfolding on_pause_recording shown_state pause
  pause-Moves n = ground arith

  resume-Moves : (n : Node D) → Moves to_resume n (on_resume_recording n)
  unfolding on_resume_recording shown_state resume
  resume-Moves n = ground arith

  split-Moves : (w : World) (n : Node D) → Moves to_split n (on_split_bag w n)
  unfolding on_split_bag shown_state split
  split-Moves w n = ground arith

  stop-Moves : (w : World) (n : Node D) → Moves to_stop n (handle_stop_recording w n)
  unfolding handle_stop_recording shown_state stop stop_discovery pause
  stop-Moves w n = ground arith

  start_when_idle :
      (success : Bool) (n n' : Node D)
      → in_recording n.recorder ≡ false
      → (success ≡ true → in_recording n'.recorder ≡ true)
      → allowed to_start success (shown_state n.recorder) (shown_state n'.recorder) ≡ true
  unfolding shown_state
  start_when_idle success n n' h k = ground arith

  start_when_busy :
      (n : Node D)
      → in_recording n.recorder ≡ true
      → fails to_start (shown_state n.recorder) (shown_state n.recorder) ≡ true
  unfolding shown_state
  start_when_busy n h = ground arith

  start-Moves :
      (w : World) (dir by : String) (n : Node D)
      → Moves to_start n (handle_start_recording w dir by n)
  start-Moves w dir by n = elim (Bool-cases (in_recording n.recorder)) [
    | inl busy ↦
        subst (Moves to_start n) (sym (start_busy w dir by n busy)) (start_when_busy n busy)
    | inr fresh ↦
        let (response, n') = handle_start_recording w dir by n in
        start_when_idle response.success n n' fresh
          (λ done. (start_recording_success w dir by n done).2)
  ]

  -- Every request to start, stop, pause, resume or split moves the state that the node shows as the
  -- table `allowed` says for its answer, whatever the outside answers. With success a start leads from
  -- "idle" into a recording, running or paused, a stop from a recording to "idle", a pause from a
  -- recording to "paused", a resume from a recording to "recording", and a split keeps a recording as it
  -- is. Without success nothing moves, but for a stop, which may pause a recording, and a start in
  -- "idle", which may leave any state.
  pub serve-allowed :
      (w : World) (dir by : String) (q : Request) (n : Node D)
      → let (response, n') = serve w dir by q n in
        allowed q response.success (shown_state n.recorder) (shown_state n'.recorder) ≡ true
  unfolding serve
  serve-allowed w dir by to_start n = start-Moves w dir by n
  serve-allowed w dir by to_stop n = stop-Moves w n
  serve-allowed w dir by to_pause n = pause-Moves n
  serve-allowed w dir by to_resume n = resume-Moves n
  serve-allowed w dir by to_split n = split-Moves w n
