-- ===== src/Config/Throttling.antt =====
-- The section `topic_throttle` of a configuration, in parseYamlNode of
-- hector_recorder/src/config_yaml.cpp.
use hector_recorder.Common.{
  pos, String, ◌<>◌, Bool, true, List, [], ◌∷◌, Option, none, some, Result, ok, throw, ◌>>=◌,
  str_eq, leb_ℤ, if◌then◌else◌,
}
use hector_recorder.Common.Map
use hector_recorder.Common.Map.{Map}
use hector_recorder.Throttle.{ThrottleConfig, messages, bytes}
use hector_recorder.Config.{Yaml}

module _ {N D : Type 0} (y : Yaml N D) where
  abbrev pub default_throttle : ThrottleConfig D
  default_throttle = record {
    type = messages;
    msgs_per_sec = y.zero;
    bytes_per_sec = pos 0;
    window = y.one;
    frequency_hz = y.zero;
  }

  abbrev required : Option N → String → Result N
  required none message = throw message
  required (some n) message = ok n

  -- `as<T>( fallback )`: the fallback where the node is undefined or does not convert.
  abbrev or_fallback {ℓ} : {A : Type ℓ} → Result A → A → A
  or_fallback (ok a) d = a
  or_fallback (throw e) d = d

  abbrev pub string_or : Option N → String → String
  string_or none d = d
  string_or (some n) d = or_fallback (y.as_string n) d

  abbrev double_or : Option N → D → D
  double_or none d = d
  double_or (some n) d = or_fallback (y.as_double n) d

  unfoldable pub parse_messages : String → N → Result (ThrottleConfig D)
  parse_messages topic cfg = do
    node ←
        required (y.get cfg "msgs_per_sec")
          ("topic_throttle: '" <> topic <> "' has type 'messages' but no 'msgs_per_sec'.")
    rate ← y.as_double node
    if y.le_zero rate
        then throw ("topic_throttle: '" <> topic <> "' msgs_per_sec must be > 0.")
        else ok (record default_throttle { type = messages; msgs_per_sec = rate })

  unfoldable pub parse_bytes : String → N → Result (ThrottleConfig D)
  parse_bytes topic cfg = do
    node ←
        required (y.get cfg "bytes_per_sec")
          ("topic_throttle: '" <> topic <> "' has type 'bytes' but no 'bytes_per_sec'.")
    rate ← y.as_int64 node
    let window = double_or (y.get cfg "window") y.one
    if leb_ℤ rate (pos 0)
        then throw ("topic_throttle: '" <> topic <> "' bytes_per_sec must be > 0.")
        else if y.le_zero window
        then throw ("topic_throttle: '" <> topic <> "' window must be > 0.")
        else ok (record default_throttle { type = bytes; bytes_per_sec = rate; window = window })

  unfoldable pub parse_typed : String → String → N → Result (ThrottleConfig D)
  unfolding parse_messages parse_bytes
  parse_typed type topic cfg =
      if str_eq type "messages"
      then parse_messages topic cfg
      else if str_eq type "bytes"
      then parse_bytes topic cfg
      else throw (
          "topic_throttle: '" <> topic <> "' has unknown type '" <> type
          <> "'. Expected 'messages' or 'bytes'.")

  -- One entry of the section.
  unfoldable pub parse_throttle : String → N → Result (ThrottleConfig D)
  unfolding parse_typed
  parse_throttle topic cfg = parse_typed (string_or (y.get cfg "type") "messages") topic cfg

  abbrev pub with_throttle :
      String
      → Result (ThrottleConfig D)
      → Map (ThrottleConfig D)
      → (Map (ThrottleConfig D) → Result Bool × Map (ThrottleConfig D))
      → Result Bool × Map (ThrottleConfig D)
  with_throttle topic (throw e) m f = (throw e, m)
  with_throttle topic (ok tc) m f = f (Map.insert topic tc m)

  -- The loop over the section; the entries before one that throws stay.
  unfoldable pub parse_throttles :
      List (String × N) → Map (ThrottleConfig D) → Result Bool × Map (ThrottleConfig D)
  unfolding parse_throttle
  parse_throttles [] m = (ok true, m)
  parse_throttles ((topic, cfg) ∷ rest) m =
      with_throttle topic (parse_throttle topic cfg) m (λ m'. parse_throttles rest m')
