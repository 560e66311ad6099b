-- ===== src/Config/Documents.antt =====
-- Nodes of YAML as data, for tests: the document of some options, with a limit, is loaded whatever the
-- text is.
use hector_recorder.Common.{
  ℕ, ℤ, pos, String, Bool, true, refl, List, [], ◌∷◌, Option, none, some, Result, ok, throw, ◌==◌,
}
use hector_recorder.Common.Map
use hector_recorder.Throttle.{messages}
use hector_recorder.Config.{
  Yaml, Options, Scalar, text, number, integer, flag, double, Emitted, scalar, texts, nested,
}
use hector_recorder.Config.Limits.{under, nodes_of, IsNested}
use hector_recorder.Config.Lookups.{document}
use hector_recorder.Config.Emitter.{IsEmitter}
use hector_recorder.Samples.{storage_options, record_options, custom_options}

pub data Node : Type 0 where
  root : List (String × Emitted ℕ) → Node
  value : Emitted ℕ → Node
  fields : List (String × Scalar ℕ) → Node
  field : Scalar ℕ → Node

abbrev pub limited_options : Options ℕ
limited_options = record {
  custom = record custom_options {
    topic_throttle =
        (
          "/odom",
          record {
            type = messages;
            msgs_per_sec = 5;
            bytes_per_sec = pos 0;
            window = 1;
            frequency_hz = 0;
          },
        )
        ∷ [];
  };
  recording = record record_options { start_paused = true };
  storage = storage_options;
}

abbrev pub get_key : Node → String → Option Node
get_key (root es) k = under value (Map.lookup k es)
get_key (value v) k = none
get_key (fields fs) k = under field (Map.lookup k fs)
get_key (field s) k = none

abbrev pub entries_of : Node → List (String × Node)
entries_of (value (nested ms)) = nodes_of fields ms
entries_of (value (scalar s)) = []
entries_of (value (texts ss)) = []
entries_of (root es) = []
entries_of (fields fs) = []
entries_of (field s) = []

-- The scalar of a node, if it has one.
abbrev pub scalar_of : Node → Option (Scalar ℕ)
scalar_of (value (scalar s)) = some s
scalar_of (value (texts ss)) = none
scalar_of (value (nested ms)) = none
scalar_of (field s) = some s
scalar_of (root es) = none
scalar_of (fields fs) = none

abbrev pub text_of : Option (Scalar ℕ) → Result String
text_of o = elim o [ some s ↦ elim s [ text x ↦ ok x | _ ↦ throw "bad" ] | none ↦ throw "bad" ]

abbrev pub flag_of : Option (Scalar ℕ) → Result Bool
flag_of o = elim o [ some s ↦ elim s [ flag x ↦ ok x | _ ↦ throw "bad" ] | none ↦ throw "bad" ]

abbrev pub number_of : Option (Scalar ℕ) → Result ℕ
number_of o = elim o [ some s ↦ elim s [ number x ↦ ok x | _ ↦ throw "bad" ] | none ↦ throw "bad" ]

abbrev pub double_of : Option (Scalar ℕ) → Result ℕ
double_of o = elim o [ some s ↦ elim s [ double x ↦ ok x | _ ↦ throw "bad" ] | none ↦ throw "bad" ]

abbrev pub integer_of : Option (Scalar ℕ) → Result ℤ
integer_of o = elim o [
  | some s ↦ elim s [ integer x ↦ ok x | _ ↦ throw "bad" ]
  | none ↦ throw "bad"
]

abbrev pub texts_of : Node → Result (List String)
texts_of (value (texts ss)) = ok ss
texts_of (value (scalar s)) = throw "bad"
texts_of (value (nested ms)) = throw "bad"
texts_of (field s) = throw "bad"
texts_of (root es) = throw "bad"
texts_of (fields fs) = throw "bad"

abbrev pub nodes : Yaml Node ℕ
nodes = record {
  get = get_key;
  is_map = λ n. true;
  entries = entries_of;
  elements = λ n. [];
  size = λ n. ok 0;
  index = λ n i. n;
  as_string = λ n. text_of (scalar_of n);
  as_strings = texts_of;
  as_bool = λ n. flag_of (scalar_of n);
  as_int = λ n. ok (pos 0);
  as_int32 = λ n. ok (pos 0);
  as_int64 = λ n. integer_of (scalar_of n);
  as_uint64 = λ n. number_of (scalar_of n);
  as_double = λ n. double_of (scalar_of n);
  as_gibibytes = λ n. ok 0;
  le_zero = λ d. d == 0;
  zero = 0;
  one = 1;
  load_file = λ path. throw "no file";
  load = λ s. ok (root (document limited_options));
  emit = λ entries. "";
}

pub nodes-IsEmitter : IsEmitter nodes root value
nodes-IsEmitter = record {
  of_get = λ es k. refl;
  of_text = λ s. refl;
  of_flag = λ b. refl;
  of_number = λ n. refl;
  of_texts = λ ss. refl;
}

pub nodes-IsNested : IsNested nodes value fields field
nodes-IsNested = record {
  of_is_map = λ ms. refl;
  of_entries = λ ms. refl;
  of_get = λ fs k. refl;
  of_text = λ s. refl;
  of_double = λ x. refl;
  of_integer = λ n. refl;
}
