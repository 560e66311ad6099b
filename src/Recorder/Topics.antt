-- ===== src/Recorder/Topics.antt =====
-- Subscriptions of RecorderImpl: get_unknown_topics, get_missing_topics, subscribe_topics,
-- subscribe_topic, subscription_qos_for_topic, offered profiles, publisher info, QoS warnings.
use hector_recorder.Common.{
  ℕ, String, Bool, true, false, not, ◌&&◌, ◌||◌, List, [], ◌∷◌, Option, none, some, Result, ok,
  throw, length, str_eq, if◌then◌else◌, ◌==◌, ltb,
}
use hector_recorder.Common.Map
use hector_recorder.Common.Map.{Map}
use hector_recorder.TopicInformation.{new_information, TopicInformation, update_publisher_info}
use hector_recorder.Options.{Qos, Reliability, Durability}
use hector_recorder.Recorder.{
  Endpoint, Outside, RecorderImpl, Outcome, topic_created, topic_removed, ◌then_do◌, call_writer,
}
use hector_recorder.Recorder.Log.{is_open, is_open_after}

-- The requested topics with no subscription.
unfoldable pub unknown_topics : List String → Map Qos → List String
unknown_topics [] subscriptions = []
unknown_topics (topic ∷ topics) subscriptions =
    let rest = unknown_topics topics subscriptions in
    if Map.contains topic subscriptions then rest else topic ∷ rest

-- The topics of the graph with no subscription.
unfoldable pub missing_topics : Map String → Map Qos → Map String
missing_topics [] subscriptions = []
missing_topics ((topic, type) ∷ topics) subscriptions =
    let rest = missing_topics topics subscriptions in
    if Map.contains topic subscriptions then rest else (topic, type) ∷ rest

-- `topics_info_[t]` for each of the topics.
unfoldable pub track_all : List String → Map TopicInformation → Map TopicInformation
track_all [] infos = infos
track_all (topic ∷ topics) infos = track_all topics (Map.emplace topic new_information infos)

unfoldable pub type_hash_to_string : (String → String) → ℕ → String → String
type_hash_to_string stringify version value =
    if version == 0 then "" else if ltb 1 version then "" else stringify value

-- The loop of type_description_hash_for_topic; `none` is the early return of an empty text.
unfoldable pub common_hash : ℕ → String → List Endpoint → Option (ℕ × String)
common_hash version value [] = some (version, value)
common_hash version value (info ∷ infos) =
    let skipped = common_hash version value infos in
    let adopted = common_hash info.hash_version info.hash_value infos in
    if info.hash_version == 0
    then skipped
    else if version == 0
    then adopted
    else if info.hash_version == version && str_eq info.hash_value value
    then skipped
    else none

abbrev pub hash_text : (String → String) → Option (ℕ × String) → String
hash_text stringify none = ""
hash_text stringify (some (version, value)) = type_hash_to_string stringify version value

unfoldable pub type_description_hash_for_topic : (String → String) → List Endpoint → String
unfolding common_hash type_hash_to_string
type_description_hash_for_topic stringify infos = hash_text stringify (common_hash 0 "" infos)

unfoldable pub reliability_to_string : Reliability → String
reliability_to_string Reliability.best_effort = "Best E."
reliability_to_string Reliability.reliable = "Rel."
reliability_to_string Reliability.system_default = "Sys. Default"
reliability_to_string Reliability.unknown = "Unknown"

abbrev pub publisher_info : List Endpoint → TopicInformation → TopicInformation
publisher_info [] info = update_publisher_info "Unknown" 0 "Unknown" info
publisher_info (e ∷ es) info =
    update_publisher_info e.topic_type (length (e ∷ es))
      (reliability_to_string e.profile.reliability) info

-- The loop of update_topic_publisher_info.
unfoldable pub update_infos : (String → List Endpoint) → Map TopicInformation → Map TopicInformation
unfolding update_publisher_info reliability_to_string
update_infos publishers [] = []
update_infos publishers ((topic, info) ∷ infos) =
    (topic, publisher_info (publishers topic) info) ∷ update_infos publishers infos

unfoldable pub is_best_effort : Reliability → Bool
is_best_effort Reliability.best_effort = true
is_best_effort _ = false

unfoldable pub is_volatile : Durability → Bool
is_volatile Durability.volatile = true
is_volatile _ = false

-- Whether a publisher offers what the subscription cannot take.
unfoldable pub incompatible : Qos → Endpoint → Bool
unfolding is_best_effort is_volatile
incompatible used info =
    (is_best_effort info.profile.reliability && not (is_best_effort used.reliability))
    || (is_volatile info.profile.durability && not (is_volatile used.durability))

unfoldable pub any_incompatible : Qos → List Endpoint → Bool
unfolding incompatible
any_incompatible used [] = false
any_incompatible used (info ∷ infos) = incompatible used info || any_incompatible used infos

unfoldable pub mem_text : String → List String → Bool
mem_text t [] = false
mem_text t (u ∷ us) = str_eq u t || mem_text t us

-- offered_qos_profiles_for_topic
unfoldable pub offered_qos_profiles_for_topic : List Endpoint → List Qos
offered_qos_profiles_for_topic [] = []
offered_qos_profiles_for_topic (info ∷ infos) = info.profile ∷ offered_qos_profiles_for_topic infos

abbrev override_or : Option Qos → Outside → String → Qos
override_or none out topic = out.adapt_request_to_offers topic (out.publishers_info topic)
override_or (some qos) out topic = qos

module _ {D : Type 0} where
  abbrev warn_used : Option Qos → Outside → String → RecorderImpl D → RecorderImpl D
  warn_used none out topic s = s
  warn_used (some used) out topic s =
      if mem_text topic s.topics_warned_about_incompatibility
      then s
      else if any_incompatible used (out.publishers_info topic)
      then record s {
        topics_warned_about_incompatibility = topic ∷ s.topics_warned_about_incompatibility;
      }
      else s

  unfoldable pub warn_if_new_qos_for_subscribed_topic :
      Outside → String → RecorderImpl D → RecorderImpl D
  unfolding mem_text any_incompatible
  warn_if_new_qos_for_subscribed_topic out topic s =
      warn_used (Map.lookup topic s.subscriptions) out topic s

  unfoldable pub warn_all : Outside → Map String → RecorderImpl D → RecorderImpl D
  warn_all out [] s = s
  warn_all out ((topic, type) ∷ topics) s =
      warn_all out topics (warn_if_new_qos_for_subscribed_topic out topic s)

  unfoldable pub subscription_qos_for_topic : Outside → String → RecorderImpl D → Qos
  subscription_qos_for_topic out topic s =
      override_or (Map.lookup topic s.topic_qos_profile_overrides) out topic

  abbrev pub subscribed : Result Bool → String → Qos → RecorderImpl D → Outcome D
  subscribed (throw e) topic qos s = (throw e, s)
  subscribed (ok true) topic qos s = (
    ok tt,
    record s {
      subscriptions = Map.emplace topic qos s.subscriptions;
      stamped_by_node = Map.emplace topic s.record_options.use_sim_time s.stamped_by_node;
      topics_info = Map.emplace topic new_information s.topics_info;
    },
  )
  subscribed (ok false) topic qos s = (
    ok tt,
    record (call_writer (topic_removed topic) s) {
      subscriptions = Map.erase topic s.subscriptions;
      stamped_by_node = Map.erase topic s.stamped_by_node;
    },
  )

  abbrev pub topic_in_writer :
      Result (Unit {0}) → Outside → String → String → RecorderImpl D → Outcome D
  topic_in_writer (throw e) out topic type s = (throw e, s)
  topic_in_writer (ok u) out topic type s =
      let infos = out.publishers_info topic in
      let s' =
        call_writer
          (topic_created topic type s.serialization_format (offered_qos_profiles_for_topic infos)
            (type_description_hash_for_topic out.stringify_hash infos))
          s in
      let qos = subscription_qos_for_topic out topic s' in
      subscribed (out.create_subscription topic qos) topic qos s'

  unfoldable pub subscribe_topic : Outside → String → String → RecorderImpl D → Outcome D
  unfolding subscription_qos_for_topic offered_qos_profiles_for_topic
      type_description_hash_for_topic is_open_after
  subscribe_topic out topic type s =
      topic_in_writer (out.create_topic (is_open s.writer) topic) out topic type s

  unfoldable pub subscribe_topics : Outside → Map String → RecorderImpl D → Outcome D
  subscribe_topics out [] s = (ok tt, s)
  subscribe_topics out ((topic, type) ∷ topics) s =
      (subscribe_topic out topic type s) then_do (λ s'. subscribe_topics out topics s')
