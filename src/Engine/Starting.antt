-- ===== src/Engine/Starting.antt =====
-- startRecording of rqml_recorder/src/bag_recorder_engine.cpp.
use Prim.Native.Char.{code}
use hector_recorder.Common.{
  ℕ, ◌*◌, String, ◌<>◌, Bool, true, false, not, ◌&&◌, List, [], ◌∷◌, Option, none, some, Result, ok,
  throw, is_empty, null, ◌==◌, if◌then◌else◌,
}
use hector_recorder.Common.Map
use hector_recorder.Common.Map.{Map}
use hector_recorder.Engine.{
  State, idle, recording, paused, TopicStats, Call, created, Writer, Doubles, World, Engine,
}

unfoldable pub expand_home : Option String → String → String
expand_home home String.[] = ""
expand_home none (String.◌∷◌ c s) = String.◌∷◌ c s
expand_home (some home) (String.◌∷◌ c s) = if code c == b'~' then home <> s else String.◌∷◌ c s

-- Whether the text ends in the character of this code.
abbrev pub ends_in : ℕ → String → Bool
ends_in x String.[] = false
ends_in x (String.◌∷◌ c String.[]) = code c == x
ends_in x (String.◌∷◌ c (String.◌∷◌ c' s)) = ends_in x (String.◌∷◌ c' s)

abbrev pub starts_with : ℕ → String → Bool
starts_with x String.[] = false
starts_with x (String.◌∷◌ c s) = code c == x

-- Without the first character, and without the last of the others.
abbrev without_last : String → String
without_last String.[] = ""
without_last (String.◌∷◌ c String.[]) = ""
without_last (String.◌∷◌ c (String.◌∷◌ c' s)) = String.◌∷◌ c (without_last (String.◌∷◌ c' s))

abbrev inner : String → String
inner String.[] = ""
inner (String.◌∷◌ c s) = without_last s

-- Quotes around the name of a topic are stripped.
unfoldable pub cleaned : String → String
cleaned s = if starts_with b'"' s && ends_in b'"' s then inner s else s

abbrev pub is_idle : State → Bool
is_idle idle = true
is_idle recording = false
is_idle paused = false

module _ {Q : Type 0} (w : World Q) where
  unfoldable pub directory : String → String → String
  unfolding expand_home
  directory asked configured =
      let dir = expand_home w.home (if is_empty asked then configured else asked) in
      let dir' = if is_empty dir then expand_home w.home "~/bags" else dir in
      if ends_in b'/' dir' then dir' else dir' <> "/"

  abbrev user_or_empty : Option String → String
  user_or_empty none = ""
  user_or_empty (some user) = user

  unfoldable pub recorded_by_of : String → String
  recorded_by_of name = if is_empty name then user_or_empty w.user <> ("@" <> w.hostname) else name

  unfoldable pub new_writer : String → String → Writer
  unfolding recorded_by_of
  new_writer bag_path recorded_by = record {
    uri = bag_path;
    storage_id = "mcap";
    max_cache_size = 10 * 1024 * 1024;
    custom_data = ("recorded_by", recorded_by_of recorded_by) ∷ [];
    calls = [];
  }

  abbrev count_or_zero : Result ℕ → ℕ
  count_or_zero (throw what) = 0
  count_or_zero (ok n) = n

  abbrev adapted : Option Q → Q
  adapted none = w.default_qos
  adapted (some qos) = qos

  abbrev qos_for : String → Result ℕ → Q
  qos_for name (throw what) = w.default_qos
  qos_for name (ok n) = if n == 0 then w.default_qos else adapted (w.adapt name)

abbrev pub call_writer : Call → Option Writer → Option Writer
call_writer c none = none
call_writer c (some writer) = some (record writer { calls = c ∷ writer.calls })

abbrev pub no_stats : {D : Type 0} → Doubles D → TopicStats D
no_stats d = record {
  type = "";
  publisher_count = 0;
  msg_count = 0;
  total_bytes = 0;
  window_start = 0;
  window_msgs = 0;
  window_bytes = 0;
  frequency = d.zero;
  bandwidth = d.zero;
}

module _ {Q D : Type 0} (w : World Q) (d : Doubles D) where
  -- The topic in the writer, its statistics and its subscription.
  unfoldable pub subscribe_as : String → String → Engine Q D → Engine Q D
  unfolding Map.insert Map.get_or
  subscribe_as name type e =
      let stats = Map.get_or name (no_stats d) e.topic_stats in
      let stats' = record stats {
        type = type;
        publisher_count = count_or_zero w (w.publishers name);
        window_start = w.now;
      } in
      let e' = record e {
        writer = call_writer (created name type) e.writer;
        topic_stats = Map.insert name stats' e.topic_stats;
      } in
      if not (w.create_topic name)
      then e
      else if w.can_subscribe name
      then record e' {
        subscriptions = Map.insert name (type, qos_for w name (w.publishers name)) e.subscriptions;
      }
      else e'

  abbrev pub subscribe_typed : String → Option (List String) → Engine Q D → Engine Q D
  subscribe_typed name none e = e
  subscribe_typed name (some []) e = e
  subscribe_typed name (some (type ∷ types)) e = subscribe_as name type e

  unfoldable pub subscribe_all : List String → Engine Q D → Engine Q D
  unfolding cleaned subscribe_as Map.lookup
  subscribe_all [] e = e
  subscribe_all (topic ∷ topics) e =
      let name = cleaned topic in
      subscribe_all topics (subscribe_typed name (Map.lookup name w.topic_names_and_types) e)

  abbrev pub closed_empty : Result (Unit {0}) → Engine Q D → Result (Unit {0}) × Engine Q D
  closed_empty (throw what) e = (throw what, e)
  closed_empty (ok u) e = (ok tt, record e { writer = none })

  abbrev pub begun : Engine Q D → Result (Unit {0}) × Engine Q D
  begun e =
      if null e.subscriptions
      then closed_empty w.close_writer
          (record e { error_message = "Failed to subscribe to any topics" })
      else (
        ok tt,
        record e { recording_start = w.now; stats_timer_active = true; state = recording },
      )

  unfoldable pub opened :
      Result (Unit {0}) → List String → String → Engine Q D → Result (Unit {0}) × Engine Q D
  unfolding new_writer subscribe_all
  opened (throw what) topics bag_path e = (
    ok tt,
    record e { error_message = "Failed to open bag for writing: " <> what; writer = none },
  )
  opened (ok u) topics bag_path e = begun (
      subscribe_all topics (record e {
        writer = some (new_writer w bag_path e.recorded_by);
        current_bag_path = bag_path;
        topic_stats = [];
        total_message_count = 0;
        total_size = d.zero;
        is_paused = false;
        stopping = false;
      }))

  abbrev pub with_directory :
      Option String → List String → String → Engine Q D → Result (Unit {0}) × Engine Q D
  with_directory (some what) topics dir e =
      (ok tt, record e { error_message = "Failed to create output directory: " <> what })
  with_directory none topics dir e =
      opened (w.open_writer (dir <> w.stamp)) topics (dir <> w.stamp) e

  -- It throws where closing a writer without topics does.
  unfoldable pub start_recording :
      List String → String → Engine Q D → Result (Unit {0}) × Engine Q D
  unfolding directory opened
  start_recording topics output_dir e =
      let dir = directory w output_dir e.output_dir in
      if not (is_idle e.state)
      then (ok tt, record e { error_message = "Already recording — stop first" })
      else if null topics
      then (ok tt, record e { error_message = "No topics selected" })
      else with_directory (w.create_directories dir) topics dir
          (record e { error_message = ""; node = true })
