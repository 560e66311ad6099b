-- ===== src/Node/Services.antt =====
-- The callbacks of RecorderNode that are not one call of a shared handler: onPauseRecording,
-- onResumeRecording and onSplitBag of hector_recorder/src/recorder_node.cpp; and the node's
-- constructor, as far as its state goes.
use hector_recorder.Common.{String, ◌<>◌, true, not, Option, none, some, ok, throw, if◌then◌else◌}
use hector_recorder.Recorder.{RecorderImpl, Outcome}
use hector_recorder.Recorder.Control.{pause, resume, split}
use hector_recorder.Node.{Node, Response, World, refused}

abbrev pub done : String → Response
done message = record { success = true; message = message; text = "" }

module _ {D : Type 0} where
  abbrev pub while_recording :
      Option (RecorderImpl D) → Node D → (RecorderImpl D → Response × Node D) → Response × Node D
  while_recording none n f = (refused "Not currently recording.", n)
  while_recording (some r) n f =
      if not r.in_recording then (refused "Not currently recording.", n) else f r

  unfoldable pub on_pause_recording : Node D → Response × Node D
  unfolding pause
  on_pause_recording n =
      while_recording n.recorder n
        (λ r. (done "Recording paused.", record n { recorder = some (pause r) }))

  unfoldable pub on_resume_recording : Node D → Response × Node D
  unfolding resume
  on_resume_recording n =
      while_recording n.recorder n
        (λ r. (done "Recording resumed.", record n { recorder = some (resume r) }))

  abbrev pub split_answer : Outcome D → Node D → Response × Node D
  split_answer (throw e, r) n =
      (refused ("Failed to split bag: " <> e), record n { recorder = some r })
  split_answer (ok u, r) n = (done "Bag file split.", record n { recorder = some r })

  unfoldable pub on_split_bag : World → Node D → Response × Node D
  unfolding split
  on_split_bag w n = while_recording n.recorder n (λ r. split_answer (split w.at_start r) n)
