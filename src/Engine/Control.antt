-- ===== src/Engine/Control.antt =====
-- The other operations of rqml_recorder/src/bag_recorder_engine.cpp: stopRecording, pauseRecording,
-- resumeRecording, splitBag, the callback of a subscription, onStatsTick, getTopicStats and
-- discoverTopics.
use Prim.Native.Char.{code}
use hector_recorder.Common.{
  ℕ, suc, ◌+◌, String, ◌<>◌, Bool, true, false, not, ◌&&◌, ◌||◌, List, [], ◌∷◌, Option, none, some,
  Result, ok, throw, ◌>>=◌, ◌==◌, if◌then◌else◌,
}
use hector_recorder.Common.Map
use hector_recorder.Common.Map.{Map}
use hector_recorder.Engine.{
  State, idle, recording, paused, TopicStats, wrote, split, Writer, Doubles, World, Engine,
}
use hector_recorder.Engine.Starting.{no_stats, call_writer, is_idle}

abbrev pub in_recording : State → Bool
in_recording recording = true
in_recording idle = false
in_recording paused = false

abbrev pub in_pause : State → Bool
in_pause paused = true
in_pause idle = false
in_pause recording = false

abbrev pub is_open : Option Writer → Bool
is_open none = false
is_open (some writer) = true

abbrev pub counted : {D : Type 0} → ℕ → TopicStats D → TopicStats D
counted size s = record s {
  msg_count = suc s.msg_count;
  total_bytes = s.total_bytes + size;
  window_msgs = suc s.window_msgs;
  window_bytes = s.window_bytes + size;
}

unfoldable pub refresh : {D : Type 0} → Doubles D → ℕ → TopicStats D → TopicStats D
refresh d now s =
    let dt = d.elapsed s.window_start now in
    if d.over_half dt
    then record s {
      frequency = d.div (d.of_ℕ s.window_msgs) dt;
      bandwidth = d.div (d.of_ℕ s.window_bytes) dt;
      window_msgs = 0;
      window_bytes = 0;
      window_start = now;
    }
    else s

unfoldable pub refresh_all : {D : Type 0} → Doubles D → ℕ → Map (TopicStats D) → Map (TopicStats D)
unfolding refresh
refresh_all d now [] = []
refresh_all d now ((name, s) ∷ stats) = (name, refresh d now s) ∷ refresh_all d now stats

module _ {Q D : Type 0} (d : Doubles D) where
  unfoldable pub new_engine : Engine Q D
  new_engine = record {
    state = idle;
    output_dir = "";
    recorded_by = "";
    current_bag_path = "";
    error_message = "";
    is_paused = false;
    stopping = false;
    recording_start = 0;
    writer = none;
    topic_stats = [];
    total_message_count = 0;
    total_size = d.zero;
    node = false;
    subscriptions = [];
    stats_timer_active = false;
  }

  unfoldable pub set_output_dir : String → Engine Q D → Engine Q D
  set_output_dir dir e = record e { output_dir = dir }

  unfoldable pub set_recorded_by : String → Engine Q D → Engine Q D
  set_recorded_by name e = record e { recorded_by = name }

  unfoldable pub duration : ℕ → Engine Q D → D
  duration now e = if is_idle e.state then d.zero else d.elapsed e.recording_start now

  -- An exception of close() is swallowed.
  unfoldable pub stop_recording : Engine Q D → Engine Q D
  stop_recording e = if is_idle e.state || e.stopping then e else record e {
    stats_timer_active = false;
    subscriptions = [];
    writer = none;
    is_paused = false;
    stopping = false;
    state = idle;
  }

  unfoldable pub pause_recording : Engine Q D → Engine Q D
  pause_recording e =
      if in_recording e.state then record e { is_paused = true; state = paused } else e

  unfoldable pub resume_recording : Engine Q D → Engine Q D
  resume_recording e =
      if in_pause e.state then record e { is_paused = false; state = recording } else e

  abbrev pub split_done : Result (Unit {0}) → Engine Q D → Engine Q D
  split_done (throw what) e = record e { error_message = "Split failed: " <> what }
  split_done (ok u) e = record e { writer = call_writer split e.writer }

  unfoldable pub split_bag : World Q → Engine Q D → Engine Q D
  split_bag w e =
      if is_idle e.state || not (is_open e.writer) then e else split_done w.split_writer e

  -- The callback of the subscription to `name`, for a message of `size` bytes at the node's time `now`.
  unfoldable pub on_message : World Q → String → ℕ → Engine Q D → Engine Q D
  unfolding Map.insert Map.get_or
  on_message w name size e =
      let s = Map.get_or name (no_stats d) e.topic_stats in
      if e.is_paused || e.stopping
      then e
      else if is_open e.writer && not w.write
      then e
      else record e {
        writer = call_writer (wrote name w.now) e.writer;
        topic_stats = Map.insert name (counted size s) e.topic_stats;
        total_message_count = suc e.total_message_count;
        total_size = d.add e.total_size (d.of_ℕ size);
      }

  unfoldable pub on_stats_tick : ℕ → Engine Q D → Engine Q D
  unfolding refresh_all
  on_stats_tick now e = record e { topic_stats = refresh_all d now e.topic_stats }

-- name.find("/_")
abbrev is_hidden : String → Bool
is_hidden String.[] = false
is_hidden (String.◌∷◌ c String.[]) = false
is_hidden (String.◌∷◌ c (String.◌∷◌ c' s)) =
    code c == b'/' && code c' == b'_' || is_hidden (String.◌∷◌ c' s)

pub record Discovered : Type 0 where
  pub name : String
  pub type : String
  pub publisher_count : ℕ

abbrev first_or_empty : List String → String
first_or_empty [] = ""
first_or_empty (type ∷ types) = type

abbrev entry_of : String → List String → ℕ → Discovered
entry_of name types n = record { name = name; type = first_or_empty types; publisher_count = n }

unfoldable pub discover_topics :
    {Q : Type 0} → World Q → Map (List String) → Result (List Discovered)
discover_topics w [] = ok []
discover_topics w ((name, types) ∷ topics) =
    let rest = discover_topics w topics in
    let listed =
      w.publishers name >>= λ n. rest >>= λ others. ok (entry_of name types n ∷ others) in
    if is_hidden name then rest else listed
