-- ===== src/Config/Limits.antt =====
-- The limits of a configuration that was written and is read again: the section `topic_throttle` in
-- hector_recorder/src/config_yaml.cpp.
use mathlib.Core.List.{append-nil, append_assoc}
use hector_recorder.Common.{
  pos, ℤ, String, true, false, ◌≡◌, refl, sym, ap, ◌∙◌, ◌⊎◌, inl, inr, List, [], ◌∷◌, ◌++◌, arith,
  Option, none, some, ok, leb_ℤ,
}
use hector_recorder.Common.Map
use hector_recorder.Common.Map.{Map}
use hector_recorder.Throttle.{ThrottleConfig, messages, bytes}
use hector_recorder.Config.{Yaml, Scalar, text, integer, double, Emitted, nested}
use hector_recorder.Config.Throttling.{
  default_throttle, parse_messages, parse_bytes, parse_typed, parse_throttle, parse_throttles,
}
use hector_recorder.Config.Serialize.{throttle_entries, throttle_fields}

abbrev pub under : {A B : Type 0} → (A → B) → Option A → Option B
under f none = none
under f (some a) = some (f a)

abbrev pub nodes_of :
    {N D : Type 0}
    → (List (String × Scalar D) → N)
    → List (String × List (String × Scalar D))
    → List (String × N)
nodes_of fields_of [] = []
nodes_of fields_of ((k, fs) ∷ entries) = (k, fields_of fs) ∷ nodes_of fields_of entries

-- Documented behaviour of yaml-cpp on a map of maps.
pub record IsNested {N D : Type 0} (y : Yaml N D) (node_of : Emitted D → N)
    (fields_of : List (String × Scalar D) → N) (field_of : Scalar D → N) : Type 0 where
  pub of_is_map :
      (entries : List (String × List (String × Scalar D)))
      → y.is_map (node_of (nested entries)) ≡ true
  pub of_entries :
      (entries : List (String × List (String × Scalar D)))
      → y.entries (node_of (nested entries)) ≡ nodes_of fields_of entries
  pub of_get :
      (fs : List (String × Scalar D)) (k : String)
      → y.get (fields_of fs) k ≡ under field_of (Map.lookup k fs)
  pub of_text : (s : String) → y.as_string (field_of (text s)) ≡ ok s
  pub of_double : (x : D) → y.as_double (field_of (double x)) ≡ ok x
  pub of_integer : (n : ℤ) → y.as_int64 (field_of (integer n)) ≡ ok n

insert-new :
    {V : Type 0} (k : String) (v : V) (m : Map V)
    → Map.lookup k m ≡ none
    → Map.insert k v m ≡ m ++ (k, v) ∷ []
unfolding Map.lookup Map.insert
insert-new k v [] h = refl
insert-new k v ((j, old) ∷ m) h = ground (arith, insert-new k v m)

module _ {N D : Type 0} (y : Yaml N D) where
  -- A limit that a configuration can give: of type MESSAGES or BYTES with positive numbers, and
  -- nothing else set.
  abbrev pub IsReadable : ThrottleConfig D → Type 0
  IsReadable tc =
      ((tc ≡ record (default_throttle y) { type = messages; msgs_per_sec = tc.msgs_per_sec })
        × (y.le_zero tc.msgs_per_sec ≡ false))
      ⊎ ((tc ≡ record (default_throttle y) {
        type = bytes;
        bytes_per_sec = tc.bytes_per_sec;
        window = tc.window;
      })
          × (leb_ℤ tc.bytes_per_sec (pos 0) ≡ false)
          × (y.le_zero tc.window ≡ false))

  module _ (node_of : Emitted D → N) (fields_of : List (String × Scalar D) → N)
      (field_of : Scalar D → N) (yaml : IsNested y node_of fields_of field_of) where
    parse_throttle_written :
        (topic : String) (tc : ThrottleConfig D)
        → IsReadable tc
        → parse_throttle y topic (fields_of (throttle_fields tc.type tc)) ≡ ok tc
    unfolding parse_throttle parse_typed parse_messages parse_bytes Map.lookup
    parse_throttle_written topic tc (inl (e, p)) =
        let t : tc.type ≡ messages = ap (λ (x : ThrottleConfig D). x.type) e in
        let fs = throttle_fields messages tc in
        ap (λ t. parse_throttle y topic (fields_of (throttle_fields t tc))) t
        ∙ rw
            (
              yaml.of_get fs "type",
              yaml.of_text "messages",
              yaml.of_get fs "msgs_per_sec",
              yaml.of_double tc.msgs_per_sec,
              p,
            )
            (ap (λ (x : ThrottleConfig D). ok x) (sym e))
    parse_throttle_written topic tc (inr (e, p, q)) =
        let t : tc.type ≡ bytes = ap (λ (x : ThrottleConfig D). x.type) e in
        let fs = throttle_fields bytes tc in
        ap (λ t. parse_throttle y topic (fields_of (throttle_fields t tc))) t
        ∙ rw
            (
              yaml.of_get fs "type",
              yaml.of_text "bytes",
              yaml.of_get fs "bytes_per_sec",
              yaml.of_integer tc.bytes_per_sec,
              yaml.of_get fs "window",
              yaml.of_double tc.window,
              p,
              q,
            )
            (ap (λ (x : ThrottleConfig D). ok x) (sym e))

    -- Limits that a configuration can give, for topics that are neither in `m` nor twice in the list.
    abbrev pub AllNew : Map (ThrottleConfig D) → Map (ThrottleConfig D) → Type 0
    AllNew m [] = Unit
    AllNew m ((topic, tc) ∷ limits) =
        (Map.lookup topic m ≡ none) × IsReadable tc × AllNew (m ++ (topic, tc) ∷ []) limits

    pub parse_throttles_written :
        (limits m : Map (ThrottleConfig D))
        → AllNew m limits
        → parse_throttles y (nodes_of fields_of (throttle_entries limits)) m
          ≡ (ok true, m ++ limits)
    unfolding parse_throttles throttle_entries
    parse_throttles_written [] m h = ap (λ x. (ok true, x)) (sym (append-nil m))
    parse_throttles_written ((topic, tc) ∷ limits) m (new, r, h) =
        rw (parse_throttle_written topic tc r, insert-new topic tc m new)
          (parse_throttles_written limits (m ++ (topic, tc) ∷ []) h
            ∙ ap (λ x. (ok true, x)) (append_assoc m ((topic, tc) ∷ []) limits))
