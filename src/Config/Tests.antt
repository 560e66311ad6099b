-- ===== src/Config/Tests.antt =====
-- Parsing at concrete documents. A node is a text here, and every node has the same keys.
use hector_recorder.Common.{
  ℕ, pos, String, true, List, [], ◌∷◌, Option, none, some, Result, ok, throw, str_eq, ◌==◌,
  if◌then◌else◌,
}
use hector_recorder.Common.Map
use hector_recorder.Config.{Yaml, Options}
use hector_recorder.Config.Throttling.{parse_throttles}
use hector_recorder.Config.Bounds.{AllUsable, parse_throttles_usable}
use hector_recorder.Samples.{storage_options, record_options, custom_options}

abbrev key : String → String → Option String
key n k =
    if str_eq k "max_bag_size"
    then some "1000"
    else if str_eq k "max_bag_size_gb"
    then some "2"
    else if str_eq k "msgs_per_sec"
    then some "5"
    else if str_eq k "type"
    then some n
    else none

abbrev double_of : String → Result ℕ
double_of n = if str_eq n "5" then ok 5 else throw "bad conversion"

abbrev yaml : Yaml String ℕ
yaml = record {
  get = key;
  is_map = λ n. true;
  entries = λ n. [];
  elements = λ n. [];
  size = λ n. ok 0;
  index = λ n i. n;
  as_string = λ n. ok n;
  as_strings = λ n. ok (n ∷ []);
  as_bool = λ n. ok true;
  as_int = λ n. ok (pos 0);
  as_int32 = λ n. ok (pos 0);
  as_int64 = λ n. ok (pos 1000);
  as_uint64 = λ n. ok 1000;
  as_double = double_of;
  as_gibibytes = λ n. ok 0;
  le_zero = λ d. d == 0;
  zero = 0;
  one = 1;
  load_file = λ path. ok path;
  load = λ s. ok s;
  emit = λ entries. "";
}

abbrev options : Options ℕ
options = record { custom = custom_options; recording = record_options; storage = storage_options }

-- The second limit is of type "frequency", and the loop throws there.
abbrev limits : List (String × String)
limits = ("/odom", "messages") ∷ ("/scan", "frequency") ∷ ("/image", "bytes") ∷ []

no_limits : AllUsable yaml []
unfolding Map.lookup
no_limits topic tc h = cc

parse_throttles_usable_example : AllUsable yaml (parse_throttles yaml limits []).1
parse_throttles_usable_example = parse_throttles_usable yaml limits [] no_limits

-- What the options are read into; the names and lists that it has are blanked.
abbrev other_options : Options ℕ
other_options = record {
  custom = custom_options;
  recording = record_options;
  storage = record storage_options { uri = "/elsewhere" };
}
