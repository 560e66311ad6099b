-- ===== src/Player/Control.antt =====
-- The calls of the user: the setters, play, pause, resume, seek and stepForward, with
-- createPublishers, of rqml_recorder/src/bag_player_engine.cpp. `now` is the reading of the clock.
use hector_recorder.Common.{
  ℕ, ◌+◌, ℤ, pos, negsuc, sub_ℕ, String, str_eq, Bool, true, false, not, ◌&&◌, ◌||◌, List, [], ◌∷◌,
  Option, none, some, Result, ok, throw, ◌==◌, ltb, null, if◌then◌else◌,
}
use hector_recorder.Common.Map
use hector_recorder.Common.Map.{Map}
use hector_recorder.Player.{
  Rosbag, Topic, Doubles, State, idle, loading, loaded, playing, paused, finished, Position,
  Outputs, Player,
}
use hector_recorder.Player.Loading.{reopen_and_seek, destroy_publishers}
use hector_recorder.Player.Playing.{is_member, publish_next_message}

abbrev pub is_playing : State → Bool
is_playing playing = true
is_playing idle = false
is_playing loading = false
is_playing loaded = false
is_playing paused = false
is_playing finished = false

abbrev pub is_paused : State → Bool
is_paused paused = true
is_paused idle = false
is_paused loading = false
is_paused loaded = false
is_paused playing = false
is_paused finished = false

abbrev pub is_idle : State → Bool
is_idle idle = true
is_idle loading = false
is_idle loaded = false
is_idle playing = false
is_idle paused = false
is_idle finished = false

abbrev pub is_loading : State → Bool
is_loading loading = true
is_loading idle = false
is_loading loaded = false
is_loading playing = false
is_loading paused = false
is_loading finished = false

abbrev pub is_loaded : State → Bool
is_loaded loaded = true
is_loaded idle = false
is_loaded loading = false
is_loaded playing = false
is_loaded paused = false
is_loaded finished = false

abbrev pub is_finished : State → Bool
is_finished finished = true
is_finished idle = false
is_finished loading = false
is_finished loaded = false
is_finished playing = false
is_finished paused = false

abbrev pub anchored : ℕ → Position → Position
anchored now p = record p {
  wall_time_at_last_msg = now;
  last_msg_bag_time_ns = p.current_bag_time_ns;
}

-- std::clamp of the target between the start and the end of the bag.
unfoldable pub target_of : ℕ → ℕ → ℤ → ℕ
target_of start end (negsuc n) = start
target_of start end (pos n) = if ltb end (start + n) then end else start + n

abbrev same : Bool → Bool → Bool
same true b = b
same false b = not b

abbrev without : String → List String → List String
without x [] = []
without x (y ∷ ys) = let rest = without x ys in if str_eq y x then rest else y ∷ rest

abbrev pub may_seek : {R : Type 0} → Option R → State → Bool
may_seek (some r) s = true
may_seek none s = not (is_idle s || is_loading s)

abbrev ensure_clock : {Q : Type 0} → Outputs Q → Outputs Q
ensure_clock o = record o {
  node = o.node || (o.clock_enabled && not o.clock_publisher);
  clock_publisher = o.clock_publisher || o.clock_enabled;
}

module _ {R Q D : Type 0} where
  unfoldable pub set_looping : Bool → Player R Q D → Player R Q D
  set_looping looping p = record p { looping = looping }

  unfoldable pub set_clock_enabled : Bool → Player R Q D → Player R Q D
  set_clock_enabled enabled p = if same p.outputs.clock_enabled enabled then p else record p {
    outputs = record p.outputs {
      clock_enabled = enabled;
      clock_publisher = p.outputs.clock_publisher || (enabled && p.outputs.node);
    };
  }

  unfoldable pub pause : Player R Q D → Player R Q D
  pause p = if is_playing p.state then record p { timer_active = false; state = paused } else p

  unfoldable pub resume : ℕ → Player R Q D → Player R Q D
  resume now p =
      if is_paused p.state
      then record p { position = anchored now p.position; timer_active = true; state = playing }
      else p

  abbrev pub started : ℕ → Player R Q D → Player R Q D
  started now p = record p {
    position = anchored now p.position;
    timer_active = true;
    outputs = ensure_clock p.outputs;
    state = playing;
  }

  unfoldable pub set_topic_enabled : String → Bool → Player R Q D → Player R Q D
  set_topic_enabled topic enabled p =
      let disabled = p.outputs.disabled_topics in
      record p {
        outputs = record p.outputs {
          disabled_topics =
              if enabled
              then without topic disabled
              else if is_member topic disabled
              then disabled
              else topic ∷ disabled;
        };
      }

module _ {R Q : Type 0} (w : Rosbag R Q) where
  abbrev qos_of : List Q → Q
  qos_of [] = w.default_qos
  qos_of (qos ∷ rest) = qos

  unfoldable pub publishers_for : List String → List (Topic Q) → Map (String × Q) → Map (String × Q)
  unfolding Map.insert
  publishers_for filter [] m = m
  publishers_for filter (t ∷ topics) m =
      let qos = qos_of t.offered_qos_profiles in
      let wanted = null filter || is_member t.name filter in
      publishers_for filter topics
        (if wanted && w.can_publish t qos then Map.insert t.name (t.type, qos) m else m)

  -- The publishers of before are dropped, that of the clock as well.
  abbrev pub create_publishers : List String → R → Outputs Q → Outputs Q
  unfolding publishers_for
  create_publishers filter r o = record (destroy_publishers o) {
    node = true;
    publishers = publishers_for filter (w.get_all_topics_and_types r) [];
  }

module _ {R Q D : Type 0} (w : Rosbag R Q) where
  -- What play() does first from "loaded" and "finished"; an exception of seek leaves play().
  abbrev pub rewound : Result R → ℕ → Player R Q D → Result (Unit {0}) × Player R Q D
  rewound (throw e) now p = (throw e, p)
  rewound (ok r) now p = (
    ok tt,
    started now (record p {
      reader = some r;
      position = record p.position { current_bag_time_ns = p.bag.start_ns; first_message = true };
    }),
  )

  abbrev pub from_start : List String → R → ℕ → Player R Q D → Result (Unit {0}) × Player R Q D
  from_start filter r now p =
      let r' = if null filter then w.reset_filter r else w.set_filter filter r in
      rewound (w.seek_to p.bag.start_ns r') now (record p {
        active_filter = filter;
        reader = some r';
        outputs = create_publishers w filter r' p.outputs;
      })

  abbrev pub play_from :
      Option R → List String → ℕ → Player R Q D → Result (Unit {0}) × Player R Q D
  play_from none filter now p = (ok tt, record p { error_message = "No bag loaded" })
  play_from (some r) filter now p =
      if is_playing p.state
      then (ok tt, p)
      else if is_loaded p.state || is_finished p.state
      then from_start filter r now p
      else (ok tt, started now p)

  unfoldable pub play : List String → ℕ → Player R Q D → Result (Unit {0}) × Player R Q D
  unfolding publishers_for
  play filter now p = play_from p.reader filter now p

  unfoldable pub step_forward : Player R Q D → Bool × Player R Q D
  unfolding publish_next_message
  step_forward p =
      if is_paused p.state || is_loaded p.state then publish_next_message w p else (false, p)

module _ {R Q D : Type 0} (d : Doubles D) where
  unfoldable pub current_time : Player R Q D → D
  current_time p =
      if p.bag.start_ns == 0
      then d.zero
      else d.seconds (sub_ℕ p.position.current_bag_time_ns p.bag.start_ns)

  unfoldable pub progress : Player R Q D → D
  unfolding current_time
  progress p =
      let ratio = d.div (current_time p) p.bag.duration in
      if d.le p.bag.duration d.zero
      then d.zero
      else if d.lt ratio d.zero
      then d.zero
      else if d.lt d.one ratio
      then d.one
      else ratio

  unfoldable pub set_rate : D → ℕ → Player R Q D → Player R Q D
  set_rate rate now p = if d.le rate d.zero || d.fuzzy_eq p.rate rate then p else record p {
    rate = rate;
    position = if is_playing p.state then anchored now p.position else p.position;
  }

  unfoldable pub seek : Rosbag R Q → D → ℕ → Player R Q D → Player R Q D
  unfolding target_of reopen_and_seek
  seek w seconds now p =
      let target_ns = target_of p.bag.start_ns p.bag.end_ns (d.nanoseconds seconds) in
      let p' = reopen_and_seek w target_ns (record p { pending_msg = none }) in
      if may_seek p.reader p.state
      then record p' {
        position = record {
          current_bag_time_ns = target_ns;
          wall_time_at_last_msg = now;
          last_msg_bag_time_ns = target_ns;
          first_message = true;
        };
      }
      else p
