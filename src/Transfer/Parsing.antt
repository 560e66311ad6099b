-- ===== src/Transfer/Parsing.antt =====
-- parseLine of rqml_recorder/src/bag_transfer.cpp, with the texts it builds.
use hector_recorder.Common.{
  ℕ, ◌+◌, ◌-◌, ◌*◌, ◌/◌, ◌%◌, ℤ, pos, negsuc, sub_ℕ, ltb_ℤ, Bool, false, ◌&&◌, List, [], ◌∷◌, ◌++◌,
  Option, none, some, length, ltb, leb, ◌==◌, null, if◌then◌else◌,
}
use hector_recorder.Transfer.{Text, codes, Doubles, Qt, Report}

-- The loop that keeps the last 20 lines.
unfoldable pub keep_last : List Text → List Text
keep_last [] = []
keep_last (line ∷ lines) =
    let rest = keep_last lines in if ltb 20 (length (line ∷ lines)) then rest else line ∷ lines

module _ {D : Type 0} (d : Doubles D) (qt : Qt D) where
  abbrev zero : D
  zero = d.of_ℕ 0

  unfoldable pub format_size : ℕ → Text
  format_size bytes =
      if ltb bytes 1024
      then qt.number bytes ++ codes " B"
      else if ltb bytes (1024 * 1024)
      then qt.fixed (d.div (d.of_ℕ bytes) (d.of_ℕ 1024)) 1 ++ codes " KB"
      else if ltb bytes (1024 * 1024 * 1024)
      then qt.fixed (d.div (d.of_ℕ bytes) (d.of_ℕ (1024 * 1024))) 1 ++ codes " MB"
      else qt.fixed (d.div (d.of_ℕ bytes) (d.of_ℕ (1024 * 1024 * 1024))) 2 ++ codes " GB"

  unfoldable pub format_eta : ℤ → Text
  format_eta (negsuc n) = []
  format_eta (pos seconds) =
      if ltb seconds 60
      then qt.number seconds ++ codes "s"
      else if ltb seconds 3600
      then qt.number (seconds / 60) ++ (codes "m " ++ (qt.number (seconds % 60) ++ codes "s"))
      else qt.number (seconds / 3600)
        ++ (codes "h " ++ (qt.number (seconds % 3600 / 60) ++ codes "m"))

  abbrev is_unit : Text → ℕ → Bool
  is_unit [] c = false
  is_unit (u ∷ []) c = u == c
  is_unit (u ∷ (v ∷ s)) c = false

  abbrev scaled : Option (Text × Text) → D
  scaled none = zero
  scaled (some (digits, unit)) =
      let val = qt.to_double digits in
      if is_unit unit b'k'
      then d.mul val (d.of_ℕ 1000)
      else if is_unit unit b'M'
      then d.mul val (d.of_ℕ 1000000)
      else if is_unit unit b'G'
      then d.mul val (d.of_ℕ 1000000000)
      else if is_unit unit b'T'
      then d.mul val (d.of_ℕ 1000000000000)
      else val

  unfoldable pub parse_speed : Text → D
  parse_speed speed_str = scaled (qt.speed_match speed_str)

  -- The estimate of the total: taken from 5 percent on, and then again where it is off by more than 5
  -- percent.
  unfoldable pub estimate_total : ℕ → ℕ → ℕ → ℕ
  estimate_total bytes pct total =
      let estimated = bytes * 100 / pct in
      let off = estimated - total + (total - estimated) in
      if pct == 0
      then total
      else if total == 0
      then if leb 5 pct then estimated else total
      else if d.gt (d.div (d.of_ℕ off) (d.of_ℕ total)) d.five_percent
      then estimated
      else total

  unfoldable pub eta : ℕ → ℕ → D → ℕ → ℤ → ℤ
  eta bytes total speed pct old =
      if d.gt speed zero && ltb bytes total
      then d.truncate (d.div (d.of_ℕ (total - bytes)) speed)
      else if leb 100 pct
      then pos 0
      else old

  unfoldable pub status_of : ℕ → ℕ → ℕ → D → Text → ℤ → Text
  unfolding format_size format_eta
  status_of bytes total pct speed speed_str eta_seconds =
      format_size bytes
      ++ ((if ltb 0 total then codes " of " ++ format_size total else [])
          ++ (codes "  ("
              ++ (qt.number pct
                  ++ (codes "%)"
                      ++ ((if d.gt speed zero then codes "  " ++ speed_str else [])
                          ++ (if ltb_ℤ (pos 0) eta_seconds
                              then codes "  ~" ++ (format_eta eta_seconds ++ codes " remaining")
                              else []))))))

  abbrev comma : ℕ
  comma = b','

  unfoldable pub without_commas : Text → Text
  without_commas [] = []
  without_commas (c ∷ s) = let rest = without_commas s in if c == comma then rest else c ∷ rest

  abbrev pub with_progress : Option (Text × Text × Text) → Report D → Report D
  with_progress none r = r
  with_progress (some (bytes_str, pct_str, speed_str)) r =
      let bytes = qt.to_long_long (without_commas bytes_str) in
      let pct = qt.to_int pct_str in
      let speed = parse_speed speed_str in
      let total = estimate_total bytes pct r.bytes_total in
      let eta_seconds = eta bytes total speed pct r.eta_seconds in
      record r {
        bytes_transferred = bytes;
        progress = d.of_ℕ pct;
        speed = speed;
        bytes_total = total;
        eta_seconds = eta_seconds;
        status_text = status_of bytes total pct speed speed_str eta_seconds;
      }

  abbrev pub with_files : Option (Text × Text) → Report D → Report D
  with_files none r = r
  with_files (some (remaining_str, total_str)) r =
      let remaining = qt.to_int remaining_str in
      let total = qt.to_int total_str in
      record r { files_total = total; files_transferred = sub_ℕ total remaining }

  -- The lines that are not empty.
  unfoldable pub parse_line : Text → Report D → Report D
  unfolding keep_last parse_speed estimate_total eta status_of without_commas
  parse_line line r =
      if null line
      then r
      else with_files (qt.chk_match line) (
          with_progress (qt.progress_match line)
            (record r { recent_output = keep_last (r.recent_output ++ line ∷ []) }))

  unfoldable pub parse_lines : List Text → Report D → Report D
  unfolding parse_line
  parse_lines [] r = r
  parse_lines (line ∷ lines) r = parse_lines lines (parse_line (qt.trimmed line) r)
