-- ===== src/Node/Responses.antt =====
-- What a start and a stop of the node come to: handleStartRecording and handleStopRecording of
-- hector_recorder/src/service_handlers.cpp.
use mathlib.Core.Path.{subst}
use hector_recorder.Common.{
  sym, Bool-cases, inl, inr, String, Bool, true, false, ◌≡◌, ◌≢◌, refl, ap, ◌∙◌, Option, some,
  Result, ok, throw, arith, if◌then◌else◌,
}
use hector_recorder.Common.Map
use hector_recorder.Common.Map.{Map}
use hector_recorder.Options.{CustomOptions, RecordOptions, StorageOptions}
use hector_recorder.Recorder.{Outside, RecorderImpl}
use hector_recorder.Recorder.Control.{record_bag, with_writer, new_recorder}
use hector_recorder.Recorder.Lifecycle.{record_bag_flags}
use hector_recorder.Node.{Node, Response, World, refused, in_recording}
use hector_recorder.Node.Handlers.{
  handle_start_recording, start_at, start_answer, create_and_start_recorder, started_with,
  requested_dir, recorded_by_of,
}
use hector_recorder.Utils.Output.{resolve_output_directory}

module _ {D : Type 0} where
  new_recorder_idle :
      (out : Outside) (storage : StorageOptions) (options : RecordOptions)
      (custom : CustomOptions D) (r : RecorderImpl D)
      → new_recorder out storage options custom.topic_throttle ≡ ok r
      → (r.in_recording ≡ false)
        × (r.storage_options ≡ storage)
        × (r.throttle_configs ≡ custom.topic_throttle)
        × (r.record_options.start_paused ≡ options.start_paused)
  unfolding new_recorder
  new_recorder_idle out storage options custom r e = ground arith

  -- Where the recorder can be made, it is in recording after a start, whether or not it threw.
  started_with_recording :
      (made : Result (RecorderImpl D)) (out : Outside) (old : Option (RecorderImpl D))
      → ((r : RecorderImpl D) → made ≡ ok r → r.in_recording ≡ false)
      → (r : RecorderImpl D) → made ≡ ok r
      → in_recording (started_with made out old).1 ≡ true
  started_with_recording (throw e) out old h r k = cc
  started_with_recording (ok s) out old h r k = ((record_bag_flags out s).1 (h s refl)).0

  start_answer_recorder :
      (uri : String) (res : Result (Unit {0}) × Option (RecorderImpl D)) (n : Node D)
      → (start_answer uri res n).1.recorder ≡ res.1
  start_answer_recorder uri (throw e, r) n = refl
  start_answer_recorder uri (ok u, r) n = refl

  start_answer_success :
      (uri : String) (res : Result (Unit {0}) × Option (RecorderImpl D)) (n : Node D)
      → let (response, n') = start_answer uri res n in
        response.success ≡ true
        → (res.0 ≡ ok tt) × (response.text ≡ uri) × (n'.storage_options ≡ n.storage_options)
  start_answer_success uri (throw e, r) n h = cc
  start_answer_success uri (ok u, r) n h = (refl, refl, refl)

  started_with_ok :
      (made : Result (RecorderImpl D)) (out : Outside) (old : Option (RecorderImpl D))
      → (started_with made out old).0 ≡ ok tt
      → (r : RecorderImpl D) × (made ≡ ok r)
        × ((record_bag out r).0 ≡ ok tt)
        × ((started_with made out old).1 ≡ some (record_bag out r).1)
  started_with_ok (throw e) out old h = cc
  started_with_ok (ok r) out old h = (r, refl, h, refl)

  -- The storage options that a start of the node gives to the new recorder.
  abbrev pub start_storage : World → String → String → Node D → StorageOptions
  start_storage w uri by n = record n.storage_options {
    uri = uri;
    custom_data =
        Map.insert "recorded_by" (recorded_by_of w by n.custom_options)
          n.storage_options.custom_data;
  }

  -- What a start that is answered with success leaves.
  pub record Started (target : Result String) (w : World) (by : String) (n : Node D)
      (response : Response) (n' : Node D) : Type 0 where
    pub uri : String
    pub made : RecorderImpl D
    pub placed : target ≡ ok uri
    pub told : response.text ≡ uri
    pub stored : n'.storage_options ≡ start_storage w uri by n
    pub created :
        new_recorder w.at_start
          (start_storage w uri by n)
          n.record_options
          n.custom_options.topic_throttle
        ≡ ok made
    pub recorded : (record_bag w.at_start made).0 ≡ ok tt
    pub kept : n'.recorder ≡ some (record_bag w.at_start made).1

  start_at_success :
      (target : Result String) (w : World) (by : String) (n : Node D)
      → let (response, n') = start_at target w by n in
        response.success ≡ true → Started target w by n response n'
  unfolding create_and_start_recorder
  start_at_success (throw e) w by n h = cc
  start_at_success (ok uri) w by n h =
      let storage = start_storage w uri by n in
      let target =
        new_recorder w.at_start storage n.record_options n.custom_options.topic_throttle in
      let n' = record n { storage_options = storage } in
      let res = started_with target w.at_start n.recorder in
      let (fine, text, same) = start_answer_success uri res n' h in
      let (r, made, recorded, recorder) = started_with_ok target w.at_start n.recorder fine in
      record {
        uri = uri;
        made = r;
        placed = refl;
        told = text;
        stored = same;
        created = made;
        recorded = recorded;
        kept = start_answer_recorder uri res n' ∙ recorder;
      }

  pub start_busy :
      (w : World) (dir by : String) (n : Node D)
      → in_recording n.recorder ≡ true
      → handle_start_recording w dir by n ≡ (refused "Already recording. Stop first.", n)
  unfolding handle_start_recording
  start_busy w dir by n h =
      let target = resolve_output_directory w.fs (requested_dir dir n.raw_output_uri) in
      ap
        (λ (b : Bool).
          if b then (refused "Already recording. Stop first.", n) else start_at target w by n)
        h

  start_fresh :
      (w : World) (dir by : String) (n : Node D)
      → in_recording n.recorder ≡ false
      → handle_start_recording w dir by n
        ≡ start_at (resolve_output_directory w.fs (requested_dir dir n.raw_output_uri)) w by n
  unfolding handle_start_recording
  start_fresh w dir by n h =
      let target = resolve_output_directory w.fs (requested_dir dir n.raw_output_uri) in
      ap
        (λ (b : Bool).
          if b then (refused "Already recording. Stop first.", n) else start_at target w by n)
        h

  Started-recording :
      (target : Result String) (w : World) (by : String) (n : Node D) (response : Response)
      (n' : Node D)
      → Started target w by n response n'
      → (in_recording n'.recorder ≡ true)
        × (Map.lookup "recorded_by" n'.storage_options.custom_data
            ≡ some (recorded_by_of w by n.custom_options))
  Started-recording target w by n response n' st =
      let idle =
        new_recorder_idle w.at_start (start_storage w st.uri by n) n.record_options n.custom_options
          st.made st.created in
      (
        ap in_recording st.kept ∙ ((record_bag_flags w.at_start st.made).1 idle.0).0,
        ap (λ (x : StorageOptions). Map.lookup "recorded_by" x.custom_data) st.stored
            ∙ Map.lookup-insert_self "recorded_by" (recorded_by_of w by n.custom_options)
                n.storage_options.custom_data,
      )

  -- What start_recording_success says of an answer.
  abbrev SuccessIsStart : World → String → String → Node D → Response × Node D → Type 0
  SuccessIsStart w dir by n (response, n') =
      response.success ≡ true
      → (in_recording n.recorder ≡ false)
        × Started (resolve_output_directory w.fs (requested_dir dir n.raw_output_uri)) w by n
            response n'
        × (in_recording n'.recorder ≡ true)
        × (Map.lookup "recorded_by" n'.storage_options.custom_data
            ≡ some (recorded_by_of w by n.custom_options))

  -- A start that is answered with success was asked of a node that was not in recording. The output
  -- directory of the request, or else that of the node, resolved to the path in the answer; the node
  -- now has that path and the name of who records, taken from the request, or else from its options,
  -- or else from the host; and it has a new recorder, made with them, whose record() returned and
  -- which is in recording.
  pub start_recording_success :
      (w : World) (dir by : String) (n : Node D)
      → (handle_start_recording w dir by n).0.success ≡ true
      → let (response, n') = handle_start_recording w dir by n in
        (in_recording n.recorder ≡ false)
        × Started
            (resolve_output_directory w.fs (requested_dir dir n.raw_output_uri))
            w
            by
            n
            response
            n'
        × (in_recording n'.recorder ≡ true)
        × (Map.lookup "recorded_by" n'.storage_options.custom_data
            ≡ some (recorded_by_of w by n.custom_options))
  start_recording_success w dir by n = elim (Bool-cases (in_recording n.recorder)) [
    | inl busy ↦ subst (SuccessIsStart w dir by n) (sym (start_busy w dir by n busy)) (λ h. cc)
    | inr fresh ↦
        let target = resolve_output_directory w.fs (requested_dir dir n.raw_output_uri) in
        let (response, n') = start_at target w by n in
        subst (SuccessIsStart w dir by n) (sym (start_fresh w dir by n fresh)) (λ h.
          let st = start_at_success target w by n h in
          let (live, by_whom) = Started-recording target w by n response n' st in
          (fresh, st, live, by_whom))
  ]

  record_bag_fails :
      (out : Outside) (r : RecorderImpl D) (e : String)
      → r.in_recording ≡ false
      → out.open_writer r.storage_options ≡ throw e
      → (record_bag out r).0 ≢ ok tt
  unfolding record_bag with_writer
  record_bag_fails out r e idle fails = ground arith

  start_answer_failed :
      (uri : String) (res : Result (Unit {0}) × Option (RecorderImpl D)) (n : Node D)
      → res.0 ≢ ok tt
      → (start_answer uri res n).0.success ≡ false
  start_answer_failed uri (throw e, r) n h = refl
  start_answer_failed uri (ok u, r) n h = absurd (h refl)

  abbrev FailsInRecording : Response × Node D → Type 0
  FailsInRecording (response, n') = (response.success ≡ false) × (in_recording n'.recorder ≡ true)

  started_with_fails :
      (w : World) (uri by : String) (n : Node D) (e : String) (r : RecorderImpl D)
      → new_recorder w.at_start
          (start_storage w uri by n)
          n.record_options
          n.custom_options.topic_throttle
        ≡ ok r
      → w.at_start.open_writer (start_storage w uri by n) ≡ throw e
      → FailsInRecording (start_at (ok uri) w by n)
  unfolding create_and_start_recorder
  started_with_fails w uri by n e r creates fails =
      let storage = start_storage w uri by n in
      let n' = record n { storage_options = storage } in
      let (idle, stored, limits, paused_first) =
        new_recorder_idle w.at_start storage n.record_options n.custom_options r creates in
      let res = started_with (ok r) w.at_start n.recorder in
      let broken =
        record_bag_fails w.at_start r e idle (ap w.at_start.open_writer stored ∙ fails) in
      subst
        (λ made. FailsInRecording (start_answer uri (started_with made w.at_start n.recorder) n'))
        (sym creates)
        (
          start_answer_failed uri res n' broken,
          ap in_recording (start_answer_recorder uri res n')
              ∙ ((record_bag_flags w.at_start r).1 idle).0,
        )

  -- A start that fails once the recorder has been made, because its writer cannot be opened, is
  -- answered with failure, but leaves the node in recording: the next start is refused, whatever it
  -- asks for.
  pub failed_start_blocks :
      (w : World) (dir by : String) (n : Node D) (uri e : String) (made : RecorderImpl D)
      → in_recording n.recorder ≡ false
      → resolve_output_directory w.fs (requested_dir dir n.raw_output_uri) ≡ ok uri
      → new_recorder w.at_start
          (start_storage w uri by n)
          n.record_options
          n.custom_options.topic_throttle
        ≡ ok made
      → w.at_start.open_writer (start_storage w uri by n) ≡ throw e
      → let (response, n') = handle_start_recording w dir by n in
        (response.success ≡ false)
        × (in_recording n'.recorder ≡ true)
        × ((w' : World) (dir' by' : String)
            → handle_start_recording w' dir' by' n'
              ≡ (refused "Already recording. Stop first.", n'))
  failed_start_blocks w dir by n uri e made fresh placed creates fails =
      let same = start_fresh w dir by n fresh ∙ ap (λ target. start_at target w by n) placed in
      let (failure, busy) =
        subst FailsInRecording (sym same) (started_with_fails w uri by n e made creates fails) in
      (
        failure,
        busy,
        λ w' dir' by'. start_busy w' dir' by' (handle_start_recording w dir by n).1 busy,
      )
