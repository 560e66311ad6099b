-- ===== src/Recorder/Steps.antt =====
-- The steps of a recorder: the calls that its owner makes, the rounds of its two threads, the callback
-- of the writer, and the messages of the topics that it is subscribed to, in any order.
use hector_recorder.Common.{String, false, throw, true, ◌≡◌}
use hector_recorder.Common.Map
use hector_recorder.Common.Map.{Map}
use hector_recorder.Options.{RecordOptions}
use hector_recorder.Throttle.{DoubleOps, ThrottleConfig}
use hector_recorder.Recorder.{Outside, RecorderImpl, SplitInfo}
use hector_recorder.Recorder.Discovery.{discovery_step}
use hector_recorder.Recorder.Control.{
  record_bag, stop, split, pause, resume, event_thread_step, write_split_callback,
  update_record_options, update_throttle_configs,
}
use hector_recorder.Recorder.Incoming.{Incoming, on_message}

-- Documented behaviour of the writer: it takes no topic as long as no bag is open.
abbrev pub RefusesClosed : Outside → Type 0
RefusesClosed out = (topic : String) → (e : String) × (out.create_topic false topic ≡ throw e)

pub data Step {D : Type 0} (ops : DoubleOps D) : RecorderImpl D → RecorderImpl D → Type 0 where
  records :
      (out : Outside) (s : RecorderImpl D) → RefusesClosed out → Step ops s (record_bag out s).1
  stops : (out : Outside) (s : RecorderImpl D) → Step ops s (stop out s).1
  splits : (out : Outside) (s : RecorderImpl D) → Step ops s (split out s).1
  pauses : (s : RecorderImpl D) → Step ops s (pause s)
  resumes : (s : RecorderImpl D) → Step ops s (resume s)
  discovers :
      (out : Outside) (s : RecorderImpl D) → RefusesClosed out → Step ops s (discovery_step out s)
  announces : (s : RecorderImpl D) → Step ops s (event_thread_step s)
  calls_back : (info : SplitInfo) (s : RecorderImpl D) → Step ops s (write_split_callback info s)
  updates_options :
      (out : Outside) (options : RecordOptions) (s : RecorderImpl D)
      → Step ops s (update_record_options out options s).1
  updates_throttle :
      (configs : Map (ThrottleConfig D)) (s : RecorderImpl D)
      → Step ops s (update_throttle_configs configs s)
  receives :
      (m : Incoming) (s : RecorderImpl D)
      → Map.contains m.topic s.subscriptions ≡ true
      → Step ops s (on_message ops m s).1

pub data Reach {D : Type 0} (ops : DoubleOps D) (s : RecorderImpl D) : RecorderImpl D → Type 0 where
  here : Reach ops s s
  next : {t u : RecorderImpl D} → Reach ops s t → Step ops t u → Reach ops s u
