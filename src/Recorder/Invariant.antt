-- ===== src/Recorder/Invariant.antt =====
-- What every step of a recorder keeps.
use hector_recorder.Common.{
  ℕ, ◌+◌, ◌%◌, ◌^◌, String, Bool, true, false, ◌≡◌, refl, ◌∙◌, List, [], ◌∷◌, ◌++◌, arith, eq_iff,
}
use hector_recorder.Common.Map
use hector_recorder.Common.Map.{Map}
use hector_recorder.Options.{Qos}
use hector_recorder.TopicInformation.{
  TopicInformation, new_information, update_statistics, update_publisher_info,
}
use hector_recorder.Recorder.{
  Endpoint, RecorderImpl, WriterCall, topic_created, topic_removed, written, closed,
}
use hector_recorder.Recorder.Log.{
  learn, allowed, opens, needs_open, is_open, only_open, is_open_after-append, only_open-append,
  known_after, valid_log, count_written, no_topics, known_after-append, valid_log-append,
  count_written-append, writes,
}
use hector_recorder.Recorder.Topics.{track_all, update_infos, publisher_info}

-- The parts of the state that matter here.
pub record Inv (subscriptions : Map Qos) (infos : Map TopicInformation) (writer : List WriterCall)
    : Type 0 where
  pub tracked : (t : String) → Map.contains t subscriptions ≡ true → Map.contains t infos ≡ true
  pub created :
      (t : String) → Map.contains t subscriptions ≡ true → known_after no_topics writer t ≡ true
  pub in_open : (t : String) → Map.contains t subscriptions ≡ true → is_open writer ≡ true
  pub logged : valid_log no_topics writer ≡ true
  pub opened_first : only_open false writer ≡ true
  pub counted :
      (t : String)
      → (Map.get_or t new_information infos).message_count ≡ count_written t writer % 2 ^ 64

abbrev pub Holds : {D : Type 0} → RecorderImpl D → Type 0
Holds s = Inv s.subscriptions s.topics_info s.writer

contains-track_all :
    (topics : List String) (infos : Map TopicInformation) (t : String)
    → Map.contains t infos ≡ true
    → Map.contains t (track_all topics infos) ≡ true
unfolding track_all
contains-track_all [] infos t h = h
contains-track_all (topic ∷ topics) infos t h =
    contains-track_all topics (Map.emplace topic new_information infos) t
      (ground (arith, Map.contains-emplace topic t new_information infos))

get_or-track_all :
    (topics : List String) (infos : Map TopicInformation) (t : String)
    → Map.get_or t new_information (track_all topics infos) ≡ Map.get_or t new_information infos
unfolding track_all
get_or-track_all [] infos t = refl
get_or-track_all (topic ∷ topics) infos t =
    get_or-track_all topics (Map.emplace topic new_information infos) t
    ∙ Map.get_or-emplace_default topic t new_information infos

contains-update_infos :
    (publishers : String → List Endpoint) (infos : Map TopicInformation) (t : String)
    → Map.contains t (update_infos publishers infos) ≡ Map.contains t infos
unfolding update_infos Map.contains
contains-update_infos publishers [] t = refl
contains-update_infos publishers ((topic, info) ∷ infos) t =
    rw (contains-update_infos publishers infos t) refl

count-publisher_info :
    (endpoints : List Endpoint) (info : TopicInformation)
    → (publisher_info endpoints info).message_count ≡ info.message_count
unfolding update_publisher_info
count-publisher_info [] info = refl
count-publisher_info (e ∷ es) info = refl

count-update_infos :
    (publishers : String → List Endpoint) (infos : Map TopicInformation) (t : String)
    → (Map.get_or t new_information (update_infos publishers infos)).message_count
      ≡ (Map.get_or t new_information infos).message_count
unfolding update_infos Map.get_or
count-update_infos publishers [] t = refl
count-update_infos publishers ((topic, info) ∷ infos) t =
    ground
      (arith, count-update_infos publishers infos t, count-publisher_info (publishers topic) info)

count-update_statistics :
    (now stamp bytes : ℕ) (info : TopicInformation)
    → (update_statistics now stamp bytes info).message_count ≡ (info.message_count + 1) % 2 ^ 64
unfolding update_statistics
count-update_statistics now stamp bytes info = refl

module _ (subs : Map Qos) (infos : Map TopicInformation) (writer : List WriterCall)
    (v : Inv subs infos writer) where
  pub create-Inv :
      (topic type format : String) (profiles : List Qos) (hash : String)
      → is_open writer ≡ true
      → Inv subs infos (writer ++ topic_created topic type format profiles hash ∷ [])
  create-Inv topic type format profiles hash o =
      let c = topic_created topic type format profiles hash in
      record {
        tracked = v.tracked;
        created = λ t h. ground (arith, known_after-append no_topics writer c t, v.created t h);
        in_open = λ t h. ground (arith, is_open_after-append false writer c, o);
        logged = ground (arith, valid_log-append no_topics writer c, v.logged);
        opened_first = ground (arith, only_open-append false writer c, v.opened_first, o);
        counted = λ t. ground (arith, count_written-append t writer c, v.counted t);
      }

  pub remove-Inv :
      (topic : String) → Inv (Map.erase topic subs) infos (writer ++ topic_removed topic ∷ [])
  remove-Inv topic = record {
    tracked = λ t h. ground (arith, Map.contains-erase topic t subs, v.tracked t);
    created = λ t h. ground (
      arith,
      Map.contains-erase topic t subs,
      known_after-append no_topics writer (topic_removed topic) t,
      v.created t,
    );
    in_open = λ t h. ground (
      arith,
      Map.contains-erase topic t subs,
      is_open_after-append false writer (topic_removed topic),
      v.in_open t,
    );
    logged = ground (arith, valid_log-append no_topics writer (topic_removed topic), v.logged);
    opened_first =
        ground (arith, only_open-append false writer (topic_removed topic), v.opened_first);
    counted = λ t. ground (arith, count_written-append t writer (topic_removed topic), v.counted t);
  }

  pub subscribe-Inv :
      (topic : String) (qos : Qos)
      → known_after no_topics writer topic ≡ true
      → is_open writer ≡ true
      → Inv (Map.emplace topic qos subs) (Map.emplace topic new_information infos) writer
  subscribe-Inv topic qos known o = record {
    tracked = λ t h. ground (
      arith,
      Map.contains-emplace topic t qos subs,
      Map.contains-emplace topic t new_information infos,
      v.tracked t,
    );
    created = λ t h.
        ground (arith, Map.contains-emplace topic t qos subs, eq_iff topic t, v.created t, known);
    in_open = λ t h. o;
    logged = v.logged;
    opened_first = v.opened_first;
    counted = λ t. rw (Map.get_or-emplace_default topic t new_information infos) (v.counted t);
  }

  pub track-Inv : (topics : List String) → Inv subs (track_all topics infos) writer
  track-Inv topics = record {
    tracked = λ t h. contains-track_all topics infos t (v.tracked t h);
    created = v.created;
    in_open = v.in_open;
    logged = v.logged;
    opened_first = v.opened_first;
    counted = λ t. rw (get_or-track_all topics infos t) (v.counted t);
  }

  pub publish-Inv :
      (publishers : String → List Endpoint) → Inv subs (update_infos publishers infos) writer
  publish-Inv publishers = record {
    tracked = λ t h. rw (contains-update_infos publishers infos t) (v.tracked t h);
    created = v.created;
    in_open = v.in_open;
    logged = v.logged;
    opened_first = v.opened_first;
    counted = λ t. rw (count-update_infos publishers infos t) (v.counted t);
  }

  -- A call of the writer that neither takes a topic away nor writes.
  pub plain-Inv :
      (c : WriterCall)
      → ((known : String → Bool) (t : String) → learn c known t ≡ known t)
      → ((known : String → Bool) → allowed c known ≡ true)
      → ((t : String) → writes t c ≡ 0)
      → ((b : Bool) → b ≡ true → opens c b ≡ true)
      → needs_open c ≡ false
      → Inv subs infos (writer ++ c ∷ [])
  plain-Inv c same free quiet stays closable = record {
    tracked = v.tracked;
    created = λ t h.
        known_after-append no_topics writer c t
        ∙ same (known_after no_topics writer) t
        ∙ v.created t h;
    in_open = λ t h.
        ground (arith, is_open_after-append false writer c, stays (is_open writer) (v.in_open t h));
    logged =
        ground (
          arith,
          valid_log-append no_topics writer c,
          v.logged,
          free (known_after no_topics writer),
        );
    opened_first = ground (arith, only_open-append false writer c, v.opened_first, closable);
    counted = λ t. ground (arith, count_written-append t writer c, v.counted t, quiet t);
  }

  pub close-Inv : Inv [] infos (writer ++ closed ∷ [])
  unfolding Map.contains
  close-Inv = record {
    tracked = λ t h. cc;
    created = λ t h. cc;
    in_open = λ t h. cc;
    logged = ground (arith, valid_log-append no_topics writer closed, v.logged);
    opened_first = ground (arith, only_open-append false writer closed, v.opened_first);
    counted = λ t. ground (arith, count_written-append t writer closed, v.counted t);
  }

  pub clear-Inv : Inv [] infos writer
  unfolding Map.contains
  clear-Inv = record {
    tracked = λ t h. cc;
    created = λ t h. cc;
    in_open = λ t h. cc;
    logged = v.logged;
    opened_first = v.opened_first;
    counted = v.counted;
  }

  pub write-Inv :
      (topic type : String) (size received source now stamp bytes : ℕ)
      → Map.contains topic subs ≡ true
      → let info = Map.get_or topic new_information infos in
        Inv subs
          (Map.insert topic (update_statistics now stamp bytes info) infos)
          (writer ++ written topic type size received source ∷ [])
  write-Inv topic type size received source now stamp bytes h =
      let c = written topic type size received source in
      let info = Map.get_or topic new_information infos in
      let info' = update_statistics now stamp bytes info in
      record {
        tracked = λ t k. ground (arith, Map.contains-insert topic t info' infos, v.tracked t k);
        created = λ t k. ground (arith, known_after-append no_topics writer c t, v.created t k);
        in_open = λ t k. ground (arith, is_open_after-append false writer c, v.in_open t k);
        logged = ground (arith, valid_log-append no_topics writer c, v.logged, v.created topic h);
        opened_first =
            ground (arith, only_open-append false writer c, v.opened_first, v.in_open topic h);
        counted = λ t. ground (
          arith,
          count_written-append t writer c,
          Map.get_or-insert topic t new_information info' infos,
          v.counted t,
          eq_iff topic t,
          count-update_statistics now stamp bytes info,
        );
      }
