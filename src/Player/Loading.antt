-- ===== src/Player/Loading.antt =====
-- expandHome, load, stop and reopenAndSeek of rqml_recorder/src/bag_player_engine.cpp.
use Prim.Native.Char.{code}
use hector_recorder.Common.{
  ℕ, ◌+◌, String, ◌<>◌, true, false, not, List, [], Option, none, some, Result, ok, throw, ◌>>=◌,
  pos, to_int32, length, null, is_empty, ◌==◌, if◌then◌else◌,
}
use hector_recorder.Player.{Rosbag, Doubles, Metadata, idle, loading, loaded, Bag, Outputs, Player}

unfoldable pub expand_home : Option String → String → String
expand_home home String.[] = ""
expand_home none (String.◌∷◌ c s) = String.◌∷◌ c s
expand_home (some home) (String.◌∷◌ c s) = if code c == b'~' then home <> s else String.◌∷◌ c s

abbrev pub destroy_publishers : {Q : Type 0} → Outputs Q → Outputs Q
destroy_publishers o = record o { publishers = []; clock_publisher = false }

-- An exception of reader_->close() is swallowed.
unfoldable pub stop : {R Q D : Type 0} → Player R Q D → Player R Q D
stop p = if p.stopping then p else record p {
  timer_active = false;
  pending_msg = none;
  active_filter = [];
  outputs = record (destroy_publishers p.outputs) { disabled_topics = [] };
  reader = none;
  position = record p.position { current_bag_time_ns = p.bag.start_ns; first_message = true };
  state = idle;
  stopping = false;
}

unfoldable pub new_player : {R Q D : Type 0} → Doubles D → Player R Q D
new_player d = record {
  state = idle;
  rate = d.one;
  looping = false;
  error_message = "";
  bag = record {
    path = "";
    name = "";
    duration = d.zero;
    start_ns = 0;
    end_ns = 0;
    topic_count = 0;
    message_count = pos 0;
    topic_list = [];
    storage_id = "";
  };
  stopping = false;
  position = record {
    current_bag_time_ns = 0;
    wall_time_at_last_msg = 0;
    last_msg_bag_time_ns = 0;
    first_message = true;
  };
  pending_msg = none;
  active_filter = [];
  reader = none;
  outputs = record {
    clock_enabled = false;
    node = false;
    clock_publisher = false;
    publishers = [];
    disabled_topics = [];
  };
  timer_active = false;
  events = [];
}

module _ {R Q : Type 0} (w : Rosbag R Q) where
  abbrev opened : String → String → Result (R × Metadata)
  opened path storage_id = w.open_bag path storage_id >>= λ r. w.get_metadata r >>= λ m. ok (r, m)

  abbrev pub close_reader : Option R → Result (Unit {0})
  close_reader none = ok tt
  close_reader (some r) = w.close r

  abbrev pub filtered : List String → R → R
  filtered topics r = if null topics then r else w.set_filter topics r

module _ {R Q D : Type 0} (w : Rosbag R Q) where
  abbrev bag_of : Doubles D → String → String → Metadata → Bag D
  bag_of d bag_path path m = record {
    path = bag_path;
    name = w.file_name path;
    duration = d.seconds (pos m.duration);
    start_ns = m.starting_time;
    end_ns = m.starting_time + m.duration;
    topic_count = length m.topics;
    message_count = to_int32 (pos m.message_count);
    topic_list = w.sorted m.topics;
    storage_id = m.storage_identifier;
  }

  abbrev pub loaded_from :
      Doubles D → String → String → Result (R × Metadata) → Player R Q D → Player R Q D
  loaded_from d bag_path path (throw e) p = record p {
    error_message = "Failed to open bag: " <> e;
    reader = none;
    state = idle;
  }
  loaded_from d bag_path path (ok (r, m)) p = record p {
    reader = some r;
    bag = bag_of d bag_path path m;
    position = record p.position { current_bag_time_ns = m.starting_time };
    state = loaded;
  }

  unfoldable pub load : Doubles D → String → Player R Q D → Player R Q D
  unfolding stop expand_home
  load d bag_path p =
      let p' = stop p in
      let path = expand_home w.home bag_path in
      if not (w.is_directory path)
      then record p' { error_message = "Not a directory: " <> bag_path }
      else loaded_from d bag_path path (opened w path p'.bag.storage_id)
          (record p' { state = loading; error_message = "" })

  abbrev pub reopened : Result R → Player R Q D → Player R Q D
  reopened (throw e) p = record p { reader = none; error_message = "Failed to reopen bag: " <> e }
  reopened (ok r) p = record p { reader = some r }

  unfoldable pub reopen_and_seek : ℕ → Player R Q D → Player R Q D
  unfolding expand_home
  reopen_and_seek target_ns p =
      if is_empty p.bag.path
      then p
      else reopened
          (close_reader w p.reader >>= λ u.
            w.open_bag (expand_home w.home p.bag.path) p.bag.storage_id >>= λ r.
            w.seek_to target_ns (filtered w p.active_filter r))
          p
