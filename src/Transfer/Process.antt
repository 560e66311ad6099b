-- ===== src/Transfer/Process.antt =====
-- start, cancel, onReadyReadStdout and onProcessFinished of rqml_recorder/src/bag_transfer.cpp.
use hector_recorder.Common.{
  ℕ, pos, negsuc, Bool, true, false, not, ◌&&◌, ◌||◌, List, [], ◌∷◌, ◌++◌, Option, none, some, ltb,
  ◌==◌, null, if◌then◌else◌,
}
use hector_recorder.Transfer.{Text, codes, Doubles, Qt, Report, BagTransfer}
use hector_recorder.Transfer.Quote.{build_command_string, join}
use hector_recorder.Transfer.Parsing.{parse_line, parse_lines, format_size}

abbrev pub is_separator : ℕ → Bool
is_separator c = c == b'\r' || c == b'\n'

-- The search for the last separator: what stands before it, itself, and what follows.
abbrev pub behind : ℕ → Option (List ℕ × ℕ × List ℕ) → List ℕ → Option (List ℕ × ℕ × List ℕ)
behind c (some (before, sep, rest)) s = some (c ∷ before, sep, rest)
behind c none s = if is_separator c then some ([], c, s) else none

unfoldable pub last_separator : List ℕ → Option (List ℕ × ℕ × List ℕ)
last_separator [] = none
last_separator (c ∷ s) = behind c (last_separator s) s

-- text.split(splitRe, Qt::SkipEmptyParts)
abbrev pub flush : Text → List Text → List Text
flush [] lines = lines
flush (c ∷ s) lines = (c ∷ s) ∷ lines

unfoldable pub split_lines : Text → Text → List Text
split_lines line [] = flush line []
split_lines line (c ∷ s) =
    let cut = flush line (split_lines [] s) in
    let kept = split_lines (line ++ c ∷ []) s in if is_separator c then cut else kept

module _ {D : Type 0} (d : Doubles D) (qt : Qt D) where
  abbrev pub read_complete : Option (List ℕ × ℕ × List ℕ) → List ℕ → BagTransfer D → BagTransfer D
  read_complete none buffer t = record t { read_buffer = buffer }
  read_complete (some (before, sep, rest)) buffer t = record t {
    read_buffer = rest;
    report = parse_lines d qt (split_lines [] (qt.from_utf8 (before ++ sep ∷ []))) t.report;
  }

  -- `output` is process_->readAllStandardOutput().
  unfoldable pub on_ready_read_stdout : List ℕ → BagTransfer D → BagTransfer D
  unfolding last_separator split_lines
  on_ready_read_stdout output t =
      let buffer = t.read_buffer ++ output in read_complete (last_separator buffer) buffer t

  abbrev fresh_report : List Text → Report D
  fresh_report lines = record {
    progress = d.of_ℕ 0;
    bytes_transferred = 0;
    bytes_total = 0;
    speed = d.of_ℕ 0;
    eta_seconds = negsuc 0;
    files_transferred = pos 0;
    files_total = 0;
    status_text = codes "Starting transfer...";
    recent_output = lines;
  }

  abbrev is_prefix : Text → Text → Bool
  is_prefix [] s = true
  is_prefix (c ∷ p) [] = false
  is_prefix (c ∷ p) (e ∷ s) = c == e && is_prefix p s

  abbrev pub text_eq : Text → Text → Bool
  text_eq [] [] = true
  text_eq [] (c ∷ s) = false
  text_eq (c ∷ s) [] = false
  text_eq (c ∷ s) (e ∷ u) = c == e && text_eq s u

  abbrev mid_one : Text → Text
  mid_one [] = []
  mid_one (c ∷ s) = s

  unfoldable pub expand_dir : Text → Text
  expand_dir local_dir = qt.clean_path (
      if is_prefix (codes "~/") local_dir || text_eq local_dir (codes "~")
      then qt.home_path ++ mid_one local_dir
      else local_dir)

  unfoldable pub is_local : Text → Bool
  is_local hostname =
      text_eq hostname qt.local_host_name
      || text_eq hostname (codes "localhost")
      || text_eq hostname (codes "127.0.0.1")

  unfoldable pub rsync_arguments : Bool → Text → Text → List Text
  rsync_arguments local source dest =
      codes "-a"
      ∷ ((if local then [] else codes "-z" ∷ [])
          ++ (codes "--info=progress2" ∷ codes "--no-inc-recursive" ∷ source ∷ dest ∷ []))

  unfoldable pub start : Text → Text → Text → BagTransfer D → BagTransfer D
  unfolding expand_dir is_local rsync_arguments
  start hostname remote_path local_dir t =
      let local_path =
        qt.clean_path (expand_dir local_dir ++ (codes "/" ++ qt.file_name remote_path)) in
      let source_path =
        if is_local hostname then remote_path else hostname ++ (codes ":" ++ remote_path) in
      if t.running then t else record {
        process = true;
        running = true;
        report = fresh_report [];
        local_path = local_path;
        source_path = source_path;
        dest_path = local_path;
        program = codes "rsync";
        arguments =
            rsync_arguments (is_local hostname) (source_path ++ codes "/")
              (local_path ++ codes "/");
        failure_command = [];
        failure_output = [];
        read_buffer = [];
      }

  -- The process is killed; its end is another step.
  unfoldable pub cancel : BagTransfer D → BagTransfer D
  cancel t =
      if t.process && t.running
      then record t { report = record t.report { status_text = codes "Cancelled" } }
      else t

  -- The rest of the buffer is one line, if it is not empty once trimmed.
  unfoldable pub drain : BagTransfer D → BagTransfer D
  unfolding parse_line
  drain t =
      let remaining = qt.trimmed (qt.from_utf8 t.read_buffer) in
      if null t.read_buffer then t else record t {
        report = if null remaining then t.report else parse_line d qt remaining t.report;
        read_buffer = [];
      }

  -- What `finished` is emitted with.
  pub record Finished : Type 0 where
    pub success : Bool
    pub message : Text
    pub path : Text

  unfoldable pub failed : Bool → ℕ → BagTransfer D → Finished × BagTransfer D
  unfolding build_command_string join
  failed crashed exit_code t =
      let output = qt.trimmed (join (b'\n' ∷ []) t.report.recent_output) in
      let status =
        if crashed
        then codes "Transfer failed (killed)"
        else codes "Transfer failed (exit code " ++ (qt.number exit_code ++ codes ")") in
      (
        record {
          success = false;
          message = if null output then status else status ++ (codes ": " ++ output);
          path = [];
        },
        record t {
          process = false;
          running = false;
          failure_output = output;
          failure_command = build_command_string t.program t.arguments;
          report = record t.report {
            status_text = status;
            progress = d.of_ℕ 0;
            bytes_transferred = 0;
            bytes_total = 0;
            speed = d.of_ℕ 0;
            eta_seconds = negsuc 0;
          };
        },
      )

  unfoldable pub succeeded : BagTransfer D → Finished × BagTransfer D
  unfolding format_size
  succeeded t = (
    record { success = true; message = codes "Transfer complete"; path = t.local_path },
    record t {
      process = false;
      running = false;
      report = record t.report {
        progress = d.of_ℕ 100;
        eta_seconds = pos 0;
        status_text =
            if ltb 0 t.report.bytes_transferred
            then codes "Transfer complete — " ++ format_size d qt t.report.bytes_transferred
            else codes "Transfer complete";
        bytes_total = t.report.bytes_transferred;
      };
    },
  )

  unfoldable pub on_process_finished : ℕ → Bool → BagTransfer D → Finished × BagTransfer D
  unfolding drain failed succeeded
  on_process_finished exit_code crashed t =
      let t' = drain t in
      if crashed || not (exit_code == 0) then failed crashed exit_code t' else succeeded t'
