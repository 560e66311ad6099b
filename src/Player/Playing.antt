-- ===== src/Player/Playing.antt =====
-- The timer of the playback: onPlaybackTick, publishNextMessage and publishClock of
-- rqml_recorder/src/bag_player_engine.cpp.
use hector_recorder.Common.{
  ℕ, zero, suc, sub_ℕ, String, str_eq, Bool, true, false, not, ◌&&◌, ◌||◌, List, [], ◌∷◌, ◌++◌,
  Option, none, some, ltb, if◌then◌else◌,
}
use hector_recorder.Common.Map
use hector_recorder.Player.{
  Message, Rosbag, Doubles, idle, finished, Position, Outputs, Event, clock, message, Player,
}
use hector_recorder.Player.Loading.{reopen_and_seek}

abbrev pub is_member : String → List String → Bool
is_member x [] = false
is_member x (y ∷ ys) = str_eq y x || is_member x ys

abbrev is_some : {A : Type 0} → Option A → Bool
is_some none = false
is_some (some a) = true

module _ {Q : Type 0} where
  abbrev pub clock_events : Outputs Q → ℕ → List Event
  clock_events o ns = if o.clock_publisher then clock ns ∷ [] else []

  abbrev pub message_events : Outputs Q → Message → List Event
  unfolding Map.contains
  message_events o m =
      if not (is_member m.topic_name o.disabled_topics)
        && (Map.contains m.topic_name o.publishers && is_some m.serialized_data)
      then message m ∷ []
      else []

  -- What the timer gives to the publishers for a message: the clock first.
  abbrev pub shown : Outputs Q → Message → List Event
  shown o m =
      (if o.clock_enabled then clock_events o m.recv_timestamp else []) ++ message_events o m

-- Negative differences are skipped, and so are waits of at most 5 ms.
unfoldable pub waits : {D : Type 0} → Doubles D → D → Position → ℕ → ℕ → Bool
waits d rate position recv_timestamp now =
    let delta = d.seconds (sub_ℕ recv_timestamp position.last_msg_bag_time_ns) in
    let bag_delta = if d.lt delta d.zero then d.zero else delta in
    let wall_delta = d.div bag_delta rate in
    let wall_elapsed = d.seconds (sub_ℕ now position.wall_time_at_last_msg) in
    d.lt wall_elapsed wall_delta && d.lt d.slack (d.sub wall_delta wall_elapsed)

-- How a round of the loop ends: by `return`, by `continue`, or with a message that counts.
pub data Round (P : Type 0) : Type 0 where
  returns : P → Round P
  continues : P → Round P
  plays : P → Round P

module _ {R Q D : Type 0} (w : Rosbag R Q) (d : Doubles D) where
  abbrev at_message : Message → ℕ → Player R Q D → Player R Q D
  at_message m now p = record p {
    position = record {
      current_bag_time_ns = m.recv_timestamp;
      wall_time_at_last_msg = now;
      last_msg_bag_time_ns = m.recv_timestamp;
      first_message = false;
    };
    events = p.events ++ shown p.outputs m;
  }

  -- The clock is read for the check, and again for the anchor.
  abbrev pub offered : Message → ℕ × ℕ → Player R Q D → Round (Player R Q D)
  offered m (now, later) p =
      if not p.position.first_message && waits d p.rate p.position m.recv_timestamp now
      then returns (record p { pending_msg = some m })
      else plays (at_message m later p)

  abbrev pub restarted : ℕ → Player R Q D → Player R Q D
  restarted now p =
      let p' = reopen_and_seek w p.bag.start_ns p in
      record p' {
        position = record {
          current_bag_time_ns = p.bag.start_ns;
          wall_time_at_last_msg = now;
          last_msg_bag_time_ns = p.bag.start_ns;
          first_message = true;
        };
      }

  abbrev pub read : Option Message × R → ℕ × ℕ → Player R Q D → Round (Player R Q D)
  read (none, r) now p = continues (record p { reader = some r })
  read (some m, r) now p = offered m now (record p { reader = some r })

  abbrev pub from_reader : Option R → ℕ × ℕ → Player R Q D → Round (Player R Q D)
  from_reader none now p = returns (record p { timer_active = false; state = idle })
  from_reader (some r) now p =
      if w.has_next r
      then read (w.read_next r) now p
      else if p.looping
      then continues (restarted now.1 p)
      else returns (record p { timer_active = false; state = finished })

  abbrev pub from_pending : Option Message → ℕ × ℕ → Player R Q D → Round (Player R Q D)
  from_pending (some m) now p = offered m now (record p { pending_msg = none })
  from_pending none now p = from_reader p.reader now p

  abbrev pub tick_round : ℕ × ℕ → Player R Q D → Round (Player R Q D)
  tick_round now p = from_pending p.pending_msg now p

  abbrev pub after_round :
      (ℕ → Player R Q D → Option (Player R Q D)) → ℕ → Round (Player R Q D) → Option (Player R Q D)
  after_round loop published (returns p) = some p
  after_round loop published (continues p) = loop published p
  after_round loop published (plays p) = loop (suc published) p

  -- `none`: the loop has not ended within `fuel` rounds. `clocks` are the readings of each round.
  unfoldable pub tick_loop : ℕ → (ℕ → ℕ × ℕ) → ℕ → Player R Q D → Option (Player R Q D)
  unfolding waits reopen_and_seek
  tick_loop zero clocks published p = none
  tick_loop (suc fuel) clocks published p =
      let next =
        after_round (λ n p'. tick_loop fuel clocks n p') published (tick_round (clocks fuel) p) in
      if ltb published 100 then next else some p

  abbrev pub starts : Option R → Bool → Bool
  starts none stopping = false
  starts (some r) stopping = not stopping

  unfoldable pub on_playback_tick : ℕ → (ℕ → ℕ × ℕ) → Player R Q D → Option (Player R Q D)
  unfolding tick_loop
  on_playback_tick fuel clocks p =
      if starts p.reader p.stopping then tick_loop fuel clocks 0 p else some p

module _ {R Q D : Type 0} (w : Rosbag R Q) where
  abbrev pub next_read : Option Message × R → Player R Q D → Bool × Player R Q D
  next_read (none, r) p = (false, record p { reader = some r })
  next_read (some m, r) p = (
    true,
    record p {
      reader = some r;
      position = record p.position { current_bag_time_ns = m.recv_timestamp };
      events = p.events ++ message_events p.outputs m;
    },
  )

  abbrev pub next_from : Option R → Player R Q D → Bool × Player R Q D
  next_from none p = (false, p)
  next_from (some r) p = if w.has_next r then next_read (w.read_next r) p else (false, p)

  unfoldable pub publish_next_message : Player R Q D → Bool × Player R Q D
  publish_next_message p = next_from p.reader p
