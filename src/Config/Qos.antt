-- ===== src/Config/Qos.antt =====
-- QoS overrides: the parsing helpers of hector_recorder/src/config_yaml.cpp.
use hector_recorder.Common.{
  ℕ, zero, ℤ, pos, negsuc, String, ◌<>◌, Bool, true, false, not, ◌&&◌, ◌||◌, List, [], ◌∷◌, Option,
  none, some, Result, ok, throw, ◌>>=◌, str_eq, is_neg, to_int32, to_uint32, if◌then◌else◌,
}
use hector_recorder.Common.Map
use hector_recorder.Common.Map.{Map}
use hector_recorder.Options.{Qos, RmwTime, History, Reliability, Durability, Liveliness}
use hector_recorder.Config.{Yaml}

abbrev pub is_zero : ℤ → Bool
is_zero (pos zero) = true
is_zero _ = false

-- The test on the two parts of a duration, and their casts.
unfoldable pub duration_of : ℤ → ℤ → String → Result RmwTime
duration_of sec nsec key =
    if is_neg sec || is_zero sec && is_neg nsec
    then throw ("Time duration may not be a negative value for key '" <> key <> "'.")
    else ok (record { sec = to_int32 sec; nsec = to_uint32 nsec })

unfoldable pub parse_history : String → Result History
parse_history s =
    if str_eq s "keep_last"
    then ok History.keep_last
    else if str_eq s "keep_all"
    then ok History.keep_all
    else if str_eq s "system_default"
    then ok History.system_default
    else throw ("Invalid history policy: '" <> s <> "'")

unfoldable pub parse_reliability : String → Result Reliability
parse_reliability s =
    if str_eq s "reliable"
    then ok Reliability.reliable
    else if str_eq s "best_effort"
    then ok Reliability.best_effort
    else if str_eq s "system_default"
    then ok Reliability.system_default
    else throw ("Invalid reliability policy: '" <> s <> "'")

unfoldable pub parse_durability : String → Result Durability
parse_durability s =
    if str_eq s "volatile"
    then ok Durability.volatile
    else if str_eq s "transient_local"
    then ok Durability.transient_local
    else if str_eq s "system_default"
    then ok Durability.system_default
    else throw ("Invalid durability policy: '" <> s <> "'")

unfoldable pub parse_liveliness : String → Result Liveliness
parse_liveliness s =
    if str_eq s "automatic"
    then ok Liveliness.automatic
    else if str_eq s "manual_by_topic"
    then ok Liveliness.manual_by_topic
    else if str_eq s "system_default"
    then ok Liveliness.system_default
    else throw ("Invalid liveliness policy: '" <> s <> "'")

unfoldable pub depth_of : ℤ → Result ℕ
depth_of (pos n) = ok n
depth_of (negsuc n) = throw "'depth' may not be a negative value."

module _ {N D : Type 0} (y : Yaml N D) where
  abbrev parts_of : Option N → Option N → String → Result RmwTime
  parts_of (some s) (some n) key = do
    sec ← y.as_int64 s
    nsec ← y.as_int64 n
    duration_of sec nsec key
  parts_of (some s) none key = throw ("Key '" <> key <> "' must include both 'sec' and 'nsec'.")
  parts_of none n key = throw ("Key '" <> key <> "' must include both 'sec' and 'nsec'.")

  unfoldable pub parse_duration : N → String → Result RmwTime
  unfolding duration_of
  parse_duration node key =
      if not (y.is_map node)
      then throw ("Key '" <> key <> "' must be a map with fields {sec, nsec}.")
      else parts_of (y.get node "sec") (y.get node "nsec") key

  -- One key of a profile.
  unfoldable pub apply_policy : String → N → Qos → Result Qos
  unfolding parse_duration parse_history parse_reliability parse_durability parse_liveliness
      depth_of
  apply_policy key val q =
      if str_eq key "deadline"
      then parse_duration val key >>= (λ t. ok (record q { deadline = t }))
      else if str_eq key "lifespan"
      then parse_duration val key >>= (λ t. ok (record q { lifespan = t }))
      else if str_eq key "liveliness_lease_duration"
      then parse_duration val key >>= (λ t. ok (record q { liveliness_lease_duration = t }))
      else if str_eq key "history"
      then y.as_string val >>= parse_history >>= (λ h. ok (record q { history = h }))
      else if str_eq key "reliability"
      then y.as_string val >>= parse_reliability >>= (λ r. ok (record q { reliability = r }))
      else if str_eq key "durability"
      then y.as_string val >>= parse_durability >>= (λ d. ok (record q { durability = d }))
      else if str_eq key "liveliness"
      then y.as_string val >>= parse_liveliness >>= (λ l. ok (record q { liveliness = l }))
      else if str_eq key "depth"
      then y.as_int val >>= depth_of >>= (λ n. ok (record q { depth = n }))
      else if str_eq key "avoid_ros_namespace_conventions"
      then y.as_bool val >>= (λ b. ok (record q { avoid_ros_namespace_conventions = b }))
      else throw ("Unexpected key '" <> key <> "' for QoS profile.")

  unfoldable pub apply_policies : List (String × N) → Qos → Result Qos
  unfolding apply_policy
  apply_policies [] q = ok q
  apply_policies ((key, val) ∷ rest) q = apply_policy key val q >>= (λ q'. apply_policies rest q')

  -- interpret_node_as_qos, from rmw_qos_profile_default.
  unfoldable pub interpret_node_as_qos : Qos → N → Result Qos
  unfolding apply_policies
  interpret_node_as_qos profile_default node =
      if not (y.is_map node)
      then throw "QoS profile must be a map (topic -> {policies...})."
      else apply_policies (y.entries node) profile_default

  unfoldable pub emplace_profiles : Qos → List (String × N) → Map Qos → Result (Map Qos)
  unfolding interpret_node_as_qos
  emplace_profiles profile_default [] out = ok out
  emplace_profiles profile_default ((topic, node) ∷ rest) out =
      interpret_node_as_qos profile_default node
      >>= (λ q. emplace_profiles profile_default rest (Map.emplace topic q out))

  unfoldable pub convert_yaml_to_qos_overrides : Qos → N → Result (Map Qos)
  unfolding emplace_profiles
  convert_yaml_to_qos_overrides profile_default root =
      if not (y.is_map root)
      then throw "QoS override YAML must be a map: <topic> -> <qos profile map>."
      else emplace_profiles profile_default (y.entries root) []

  unfoldable pub load_qos_overrides_from_file : Qos → String → Result (Map Qos)
  unfolding convert_yaml_to_qos_overrides
  load_qos_overrides_from_file profile_default path =
      y.load_file path >>= (λ root. convert_yaml_to_qos_overrides profile_default root)
