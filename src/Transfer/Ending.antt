-- ===== src/Transfer/Ending.antt =====
-- How a transfer ends: onProcessFinished and cancel of rqml_recorder/src/bag_transfer.cpp.
use hector_recorder.Common.{ℕ, Bool, true, false, ◌≡◌, ◌≢◌, [], ◌∷◌, arith, ◌⊎◌}
use hector_recorder.Transfer.{codes, Doubles, Qt, BagTransfer}
use hector_recorder.Transfer.Quote.{build_command_string, join}
use hector_recorder.Transfer.Process.{drain, failed, succeeded, on_process_finished}

module _ {D : Type 0} (d : Doubles D) (qt : Qt D) where
  -- What the end leaves in any case: no process, nothing in the buffer, and room for a new transfer.
  abbrev IsOver : BagTransfer D → Type 0
  IsOver t = (t.running ≡ false) × (t.process ≡ false) × (t.read_buffer ≡ [])

  drain_buffer :
      (t : BagTransfer D)
      → ((drain d qt t).read_buffer ≡ [])
        × ((drain d qt t).program ≡ t.program)
        × ((drain d qt t).arguments ≡ t.arguments)
        × ((drain d qt t).local_path ≡ t.local_path)
  unfolding drain
  drain_buffer t = ground arith

  -- When the process has ended, the transfer is over on every branch. An exit with code 0 is announced
  -- as a success with the local path, with the progress at 100 and the total corrected to what was
  -- transferred. A crash or any other code is announced as a failure, with the lines of output that
  -- were kept as the failure's output and its command built from program and arguments, and the
  -- numbers go back to 0; a transfer that was cancelled shows as killed.
  on_process_finished_branches :
      (exit_code : ℕ) (crashed : Bool) (t : BagTransfer D)
      → let (f, t') = on_process_finished d qt exit_code crashed t in
        let drained = (drain d qt t).report in
        IsOver t'
        × (crashed ≡ false
            → exit_code ≡ 0
            → (f.success ≡ true)
              × (f.path ≡ t.local_path)
              × (t'.report.progress ≡ d.of_ℕ 100)
              × (t'.report.bytes_total ≡ drained.bytes_transferred))
        × ((crashed ≡ true) ⊎ (exit_code ≢ 0)
            → (f.success ≡ false)
              × (t'.failure_output ≡ qt.trimmed (join (b'\n' ∷ []) drained.recent_output))
              × (t'.failure_command ≡ build_command_string t.program t.arguments)
              × (t'.report.progress ≡ d.of_ℕ 0)
              × (t'.report.bytes_transferred ≡ 0)
              × (t'.report.bytes_total ≡ 0))
        × (crashed ≡ true → t'.report.status_text ≡ codes "Transfer failed (killed)")
  unfolding on_process_finished failed succeeded
  on_process_finished_branches exit_code crashed t = ground (arith, drain_buffer t)
