-- ===== src/Transfer/Tests.antt =====
-- Transfers at concrete outputs of rsync. A double is a natural number here, no regular expression
-- matches, and bytes are taken as code points.
use hector_recorder.Common.{
  ℕ, pos, true, ◌≡◌, refl, List, [], ◌∷◌, none, some, arith, ltb, ◌/◌, ◌*◌,
}
use hector_recorder.Transfer.{codes, Doubles, Qt, Report, BagTransfer}
use hector_recorder.Transfer.Quote.{
  between, shell_words, build_command_string, shell-build_command_string,
}
use hector_recorder.Transfer.Process.{last_separator, on_ready_read_stdout}
use hector_recorder.Transfer.Parsing.{parse_lines}
use hector_recorder.Transfer.Chunks.{IsDecoder, read_all, concat, read_chunks}
use hector_recorder.Transfer.Tail.{last, kept, parse_lines_tail}

abbrev doubles : Doubles ℕ
doubles = record {
  of_ℕ = λ n. n;
  mul = λ x y. x * y;
  div = λ x y. x / y;
  gt = λ x y. ltb y x;
  truncate = λ x. pos x;
  five_percent = 0;
}

abbrev qt : Qt ℕ
qt = record {
  home_path = codes "/home/u";
  clean_path = λ path. path;
  file_name = λ path. path;
  local_host_name = codes "robot";
  from_utf8 = λ bytes. bytes;
  trimmed = λ text. text;
  progress_match = λ line. none;
  chk_match = λ line. none;
  speed_match = λ line. none;
  to_long_long = λ text. 0;
  to_int = λ text. 0;
  to_double = λ text. 0;
  number = λ n. codes "2";
  fixed = λ x digits. codes "0";
}

abbrev report : Report ℕ
report = record {
  progress = 40;
  bytes_transferred = 400;
  bytes_total = 1000;
  speed = 10;
  eta_seconds = pos 60;
  files_transferred = pos 0;
  files_total = 0;
  status_text = [];
  recent_output = codes "old" ∷ [];
}

abbrev transfer : BagTransfer ℕ
transfer = record {
  process = true;
  running = true;
  report = report;
  local_path = codes "/bags/b";
  source_path = codes "robot:/b";
  dest_path = codes "/bags/b";
  program = codes "rsync";
  arguments = codes "it's" ∷ [];
  failure_command = [];
  failure_output = [];
  read_buffer = codes "er";
}

-- rsync 'it'\''s' '' a/b
shell-build_command_string_example :
    shell_words between []
      (build_command_string (codes "rsync") (codes "it's" ∷ [] ∷ codes "a/b" ∷ []))
    ≡ some (codes "rsync" ∷ codes "it's" ∷ [] ∷ codes "a/b" ∷ [])
shell-build_command_string_example =
    shell-build_command_string (codes "rsync") (codes "it's" ∷ [] ∷ codes "a/b" ∷ [])
      (refl, (refl, (refl, (refl, tt))))

decoder : IsDecoder qt.from_utf8
decoder = record { of_nil = refl; of_separator = λ s u c h. refl }

abbrev chunks : List (List ℕ)
chunks = codes "ror\n" ∷ (codes "a\rb" ∷ (codes "c" ∷ []))

no_line : last_separator transfer.read_buffer ≡ none
unfolding last_separator
no_line = refl

read_chunks_example :
    read_all doubles qt chunks transfer ≡ on_ready_read_stdout doubles qt (concat chunks) transfer
read_chunks_example = read_chunks doubles qt decoder chunks transfer no_line

parse_lines_tail_example :
    (parse_lines doubles qt (codes "a" ∷ [] ∷ codes "b" ∷ []) report).recent_output
    ≡ last 20 (codes "old" ∷ kept qt.trimmed (codes "a" ∷ [] ∷ codes "b" ∷ []))
parse_lines_tail_example =
    parse_lines_tail doubles qt (codes "a" ∷ [] ∷ codes "b" ∷ []) report (omega arith)
