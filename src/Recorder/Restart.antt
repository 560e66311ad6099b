-- ===== src/Recorder/Restart.antt =====
-- record() after stop(), on the same RecorderImpl.
use hector_recorder.Common.{true, false, ◌≡◌, ◌∙◌, ap, arith, Result, ok, throw}
use hector_recorder.Recorder.{Outside, RecorderImpl, SplitInfo, ◌then_do◌}
use hector_recorder.Recorder.Discovery.{is_live}
use hector_recorder.Recorder.Control.{
  record_bag, with_open_writer, with_writer, subscribe_at_start, track_unknown,
  discover_unless_disabled, stop, event_thread_step, write_split_callback,
}
use hector_recorder.Recorder.Lifecycle.{subscribe_at_start-SameControl, record_bag_flags}

module _ {D : Type 0} where
  -- What stop leaves behind: its flags are set and its threads are gone.
  abbrev Stopped : RecorderImpl D → Type 0
  Stopped t =
      (t.stop_flag ≡ true)
      × (is_live t.discovery_future ≡ false)
      × (t.event_publisher_thread_should_exit ≡ true)

  abbrev Dead : RecorderImpl D → Type 0
  Dead t = (is_live t.discovery_future ≡ false) × (t.event_publisher_thread_should_exit ≡ true)

  stop-Stopped :
      (out : Outside) (s : RecorderImpl D)
      → s.in_recording ≡ true
      → s.stop_flag ≡ false
      → out.joined ≡ true
      → out.close_writer ≡ ok tt
      → Stopped (stop out s).1 × ((stop out s).1.in_recording ≡ false)
  unfolding stop
  stop-Stopped out s recording running joined closes = ground arith

  finish_start-Dead :
      (t : RecorderImpl D) → Stopped t → Dead (discover_unless_disabled (track_unknown t))
  unfolding discover_unless_disabled track_unknown
  finish_start-Dead t h = ground arith

  finish-Dead :
      (r : Result (Unit {0}) × RecorderImpl D)
      → Stopped r.1
      → Dead (r then_do (λ t. (ok tt, discover_unless_disabled (track_unknown t)))).1
  finish-Dead (ok v, t) k = finish_start-Dead t k
  finish-Dead (throw e, t) k = (k.1, k.2)

  with_writer-Dead :
      (w : Result (Unit {0})) (out : Outside) (s : RecorderImpl D)
      → Stopped s
      → Dead (with_writer w out s).1
  unfolding with_writer
  with_writer-Dead (throw e) out s h = (h.1, h.2)
  with_writer-Dead (ok u) out s h =
      let same = subscribe_at_start-SameControl out (with_open_writer s) in
      finish-Dead (subscribe_at_start out (with_open_writer s)) (
        same.stop_flag ∙ (unfold with_open_writer in h.0),
        ap is_live same.discovery_future ∙ (unfold with_open_writer in h.1),
        same.should_exit ∙ (unfold with_open_writer in h.2),
      )

  record_bag-Dead : (out : Outside) (s : RecorderImpl D) → Stopped s → Dead (record_bag out s).1
  unfolding record_bag
  record_bag-Dead out s h =
      let s' = record s {
        in_recording = true;
        paused = s.record_options.start_paused;
        topic_qos_profile_overrides = s.record_options.topic_qos_profile_overrides;
      } in
      ground (arith, with_writer-Dead (out.open_writer s.storage_options) out s' h)

  event_thread_step-Dead :
      (info : SplitInfo) (s : RecorderImpl D)
      → Dead s
      → (event_thread_step (write_split_callback info s)).files ≡ s.files
  unfolding event_thread_step write_split_callback
  event_thread_step-Dead info s h = ground arith

  stop-Dead :
      (info : SplitInfo) (out : Outside) (s : RecorderImpl D)
      → Dead s
      → (stop out (write_split_callback info s)).1.files ≡ s.files
  unfolding stop write_split_callback
  stop-Dead info out s h = ground arith

  -- A recording that has been stopped, with its writer closed and its discovery thread ended in time,
  -- and is then started again by record() on the same object: whatever that call meets, no discovery
  -- thread runs after it, so topics that appear later are not recorded, and the file of a split of the
  -- new bag that follows is added to the list of files neither by the next round of the event thread nor
  -- by a stop(), whatever that meets.
  pub restart_dead :
      (out again last : Outside) (s : RecorderImpl D) (info : SplitInfo)
      → s.in_recording ≡ true
      → s.stop_flag ≡ false
      → out.joined ≡ true
      → out.close_writer ≡ ok tt
      → let s' = (record_bag again (stop out s).1).1 in
        (s'.in_recording ≡ true)
        × (is_live s'.discovery_future ≡ false)
        × ((event_thread_step (write_split_callback info s')).files ≡ s'.files)
        × ((stop last (write_split_callback info s')).1.files ≡ s'.files)
  restart_dead out again last s info recording running joined closes =
      let (stopped, idle) = stop-Stopped out s recording running joined closes in
      let dead = record_bag-Dead again (stop out s).1 stopped in
      (
        ((record_bag_flags again (stop out s).1).1 idle).0,
        dead.0,
        event_thread_step-Dead info (record_bag again (stop out s).1).1 dead,
        stop-Dead info last (record_bag again (stop out s).1).1 dead,
      )
