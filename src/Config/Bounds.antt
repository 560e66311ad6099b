-- ===== src/Config/Bounds.antt =====
-- What parsing lets through: hector_recorder/src/config_yaml.cpp.
use hector_recorder.Common.{
  ◌<>◌, pos, String, Bool, true, false, ◌≡◌, ◌≢◌, refl, List, [], ◌∷◌, Option, some, Result, ok,
  throw, str_eq, leb_ℤ, if◌then◌else◌, ◌⊎◌, inl, inr, ◌>>=◌, if_both, sym, ◌∙◌,
}
use mathlib.Core.Path.{subst}
use hector_recorder.Common.Map
use hector_recorder.Common.Map.{Map}
use hector_recorder.Throttle.{ThrottleConfig, messages, bytes}
use hector_recorder.Options.{Qos}
use hector_recorder.Config.{Yaml, Options}
use hector_recorder.Config.Throttling.{
  parse_typed, string_or, parse_messages, parse_bytes, parse_throttle, parse_throttles,
  with_throttle,
}
use hector_recorder.Config.Parse.{
  ParseStep, go_on, run_steps, size_step, swallowed, name_steps, parse_yaml_node,
  parse_yaml_config_from_string,
}

some_inj {ℓ} : {A : Type ℓ} (a b : A) → some a ≡ some b → a ≡ b
some_inj a b e = cc

-- A result that, where it is one, has P.
abbrev pub Always {ℓ κ} : {A : Type ℓ} → (A → Type κ) → Result A → Type κ
Always P (ok a) = P a
Always P (throw e) = Unit

bind-Always {ℓ κ μ} :
    {A : Type ℓ} {B : Type κ} (P : B → Type μ) (m : Result A) (f : A → Result B)
    → ((a : A) → Always P (f a))
    → Always P (m >>= f)
bind-Always P (ok a) f h = h a
bind-Always P (throw e) f h = tt

unless_then-Always {ℓ κ} :
    {A : Type ℓ} (P : A → Type κ) (b : Bool) (e : String) (r : Result A)
    → (b ≡ false → Always P r)
    → Always P (if b then throw e else r)
unless_then-Always P true e r h = tt
unless_then-Always P false e r h = h refl

unless-Always {ℓ κ} :
    {A : Type ℓ} (P : A → Type κ) (b : Bool) (e : String) (a : A)
    → (b ≡ false → P a)
    → Always P (if b then throw e else ok a)
unless-Always P b e a h = unless_then-Always P b e (ok a) h

module _ {N D : Type 0} (y : Yaml N D) where
  -- A limit that the throttle can work with.
  abbrev pub IsUsable : ThrottleConfig D → Type 0
  IsUsable tc =
      ((tc.type ≡ messages) × (y.le_zero tc.msgs_per_sec ≡ false))
      ⊎ ((tc.type ≡ bytes)
          × (leb_ℤ tc.bytes_per_sec (pos 0) ≡ false)
          × (y.le_zero tc.window ≡ false))

  abbrev pub AllUsable : Map (ThrottleConfig D) → Type 0
  AllUsable m =
      (topic : String) (tc : ThrottleConfig D) → Map.lookup topic m ≡ some tc → IsUsable tc

  parse_messages-Always : (topic : String) (cfg : N) → Always IsUsable (parse_messages y topic cfg)
  unfolding parse_messages
  parse_messages-Always topic cfg = bind-Always IsUsable _ _ (λ node.
      bind-Always IsUsable (y.as_double node) _
        (λ rate. unless-Always IsUsable (y.le_zero rate) _ _ (λ above. inl (refl, above))))

  parse_bytes-Always : (topic : String) (cfg : N) → Always IsUsable (parse_bytes y topic cfg)
  unfolding parse_bytes
  parse_bytes-Always topic cfg = bind-Always IsUsable _ _ (λ node.
      bind-Always IsUsable (y.as_int64 node) _ (λ rate.
        unless_then-Always IsUsable (leb_ℤ rate (pos 0)) _ _
          (λ above. unless-Always IsUsable _ _ _ (λ wide. inr (refl, above, wide)))))

  parse_typed-Always :
      (type topic : String) (cfg : N) → Always IsUsable (parse_typed y type topic cfg)
  unfolding parse_typed
  parse_typed-Always type topic cfg =
      let others =
        if str_eq type "bytes"
        then parse_bytes y topic cfg
        else throw (
            "topic_throttle: '" <> topic <> "' has unknown type '" <> type
            <> "'. Expected 'messages' or 'bytes'.") in
      if_both (Always IsUsable) (str_eq type "messages") (parse_messages y topic cfg) others
        (parse_messages-Always topic cfg)
        (if_both (Always IsUsable) (str_eq type "bytes") (parse_bytes y topic cfg)
          (throw (
            "topic_throttle: '" <> topic <> "' has unknown type '" <> type
            <> "'. Expected 'messages' or 'bytes'."))
          (parse_bytes-Always topic cfg) tt)

  parse_throttle-Always : (topic : String) (cfg : N) → Always IsUsable (parse_throttle y topic cfg)
  unfolding parse_throttle
  parse_throttle-Always topic cfg =
      parse_typed-Always (string_or y (y.get cfg "type") "messages") topic cfg

  choice-IsUsable :
      (b : Bool) (o : Option (ThrottleConfig D)) (tc tc' : ThrottleConfig D)
      → (if b then some tc else o) ≡ some tc'
      → IsUsable tc
      → (o ≡ some tc' → IsUsable tc')
      → IsUsable tc'
  choice-IsUsable true o tc tc' e h k = subst IsUsable (some_inj tc tc' e) h
  choice-IsUsable false o tc tc' e h k = k e

  insert-AllUsable :
      (topic : String) (r : Result (ThrottleConfig D)) (m : Map (ThrottleConfig D))
      (f : Map (ThrottleConfig D) → Result Bool × Map (ThrottleConfig D))
      → Always IsUsable r
      → AllUsable m
      → ((m' : Map (ThrottleConfig D)) → AllUsable m' → AllUsable (f m').1)
      → AllUsable (with_throttle y topic r m f).1
  insert-AllUsable topic (throw e) m f h v k = v
  insert-AllUsable topic (ok tc) m f h v k = k (Map.insert topic tc m) (λ t tc' e.
      choice-IsUsable (str_eq topic t) (Map.lookup t m) tc tc'
        (sym (Map.lookup-insert topic t tc m) ∙ e) h (v t tc'))

  -- However the section topic_throttle reads, and even where the loop over it throws half-way: if the
  -- limits that were there can be worked with, so can all that are there afterwards. A limit is either
  -- a message rate above 0, or a byte rate above 0 with a window above 0; none is of type FREQUENCY.
  pub parse_throttles_usable :
      (entries : List (String × N)) (m : Map (ThrottleConfig D))
      → AllUsable m
      → AllUsable (parse_throttles y entries m).1
  unfolding parse_throttles
  parse_throttles_usable [] m v = v
  parse_throttles_usable ((topic, cfg) ∷ rest) m v =
      insert-AllUsable topic (parse_throttle y topic cfg) m _ (parse_throttle-Always topic cfg) v
        (λ m' v'. parse_throttles_usable rest m' v')

  go_on_fails :
      (r : Result Bool × Options D) (f : ParseStep D)
      → ((o : Options D) → (f o).0 ≢ ok true)
      → (go_on r f).0 ≢ ok true
  go_on_fails (ok true, o) f h = h o
  go_on_fails (ok false, o) f h = λ e. cc
  go_on_fails (throw e, o) f h = λ e. cc

  swallowed_fails : (r : Result Bool × Options D) → r.0 ≢ ok true → (swallowed r).0 ≡ false
  swallowed_fails (ok true, o) h = absurd (h refl)
  swallowed_fails (ok false, o) h = refl
  swallowed_fails (throw e, o) h = refl

  conflict_fails :
      (config : N) (rmw_format : String) (profile_default : Qos) (a b : N) (o : Options D)
      → y.get config "max_bag_size" ≡ some a
      → y.get config "max_bag_size_gb" ≡ some b
      → (parse_yaml_node y config rmw_format profile_default o).0 ≢ ok true
  unfolding parse_yaml_node run_steps size_step
  conflict_fails config rmw_format profile_default a b o ha hb =
      go_on_fails (run_steps (name_steps y config) o) _ (λ o'. rw (ha, hb) (λ e. cc))

  -- A configuration that gives both max_bag_size and max_bag_size_gb is refused, whatever else it says.
  pub size_conflict_refused :
      (yaml : String) (config : N) (rmw_format : String) (profile_default : Qos) (a b : N)
      (o : Options D)
      → y.load yaml ≡ ok config
      → y.get config "max_bag_size" ≡ some a
      → y.get config "max_bag_size_gb" ≡ some b
      → (parse_yaml_config_from_string y rmw_format profile_default yaml o).0 ≡ false
  unfolding parse_yaml_config_from_string
  size_conflict_refused yaml config rmw_format profile_default a b o loads ha hb = rw loads (
      swallowed_fails (parse_yaml_node y config rmw_format profile_default o)
        (conflict_fails config rmw_format profile_default a b o ha hb))
