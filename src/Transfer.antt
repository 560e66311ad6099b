-- ===== src/Transfer.antt =====
-- BagTransfer: rqml_recorder/src/bag_transfer.cpp, a transfer of a bag by rsync. A QString is the list
-- of its code points, a QByteArray the list of its bytes. Qt and the regular expressions of the file are
-- the parameter `Qt`, doubles are `Doubles`; signals are left out, but for `finished`, which the last
-- step returns.
pub mod Quote
pub mod Parsing
pub mod Process
pub mod Chunks
pub mod Tail
pub mod Ending
mod Tests
use Prim.Native.Char.{code}
use hector_recorder.Common.{ℕ, ℤ, String, Bool, List, [], ◌∷◌, ◌++◌, Option}

abbrev pub Text : Type 0
Text = List ℕ

-- The code points of a literal.
abbrev pub codes : String → Text
codes String.[] = []
codes (String.◌∷◌ c s) = code c ∷ codes s

pub record Doubles (D : Type 0) : Type 0 where
  pub of_ℕ : ℕ → D
  pub mul : D → D → D
  pub div : D → D → D
  pub gt : D → D → Bool
  pub truncate : D → ℤ
  pub five_percent : D

-- `progress_match`, `chk_match` and `speed_match` give the captures of progressRe, chkRe and speedRe,
-- where they match. `to_long_long` and `to_int` read digits; `fixed` is number(d, 'f', digits).
pub record Qt (D : Type 0) : Type 0 where
  pub home_path : Text
  pub clean_path : Text → Text
  pub file_name : Text → Text
  pub local_host_name : Text
  pub from_utf8 : List ℕ → Text
  pub trimmed : Text → Text
  pub progress_match : Text → Option (Text × Text × Text)
  pub chk_match : Text → Option (Text × Text)
  pub speed_match : Text → Option (Text × Text)
  pub to_long_long : Text → ℕ
  pub to_int : Text → ℕ
  pub to_double : Text → D
  pub number : ℕ → Text
  pub fixed : D → ℕ → Text

-- What the lines of rsync change.
pub record Report (D : Type 0) : Type 0 where
  pub progress : D
  pub bytes_transferred : ℕ
  pub bytes_total : ℕ
  pub speed : D
  pub eta_seconds : ℤ
  pub files_transferred : ℤ
  pub files_total : ℕ
  pub status_text : Text
  pub recent_output : List Text

pub record BagTransfer (D : Type 0) : Type 0 where
  pub process : Bool
  pub running : Bool
  pub report : Report D
  pub local_path : Text
  pub source_path : Text
  pub dest_path : Text
  pub program : Text
  pub arguments : List Text
  pub failure_command : Text
  pub failure_output : Text
  pub read_buffer : List ℕ
