-- ===== src/Player/Tests.antt =====
-- Playing small bags. A reader is the list of the messages that are left, and doubles are numbers of
-- nanoseconds.
use hector_recorder.Common.{
  ℕ, ◌-◌, ◌≤◌, pos_part, ◌/◌, pos, pos_part, true, false, not, ◌≡◌, refl, ap, List, [], ◌∷◌, Option,
  none, some, ok, arith, null, ltb, leb, ◌==◌,
}
use hector_recorder.Player.{Message, Topic, Metadata, Rosbag, Doubles, playing, paused, Player}
use hector_recorder.Player.Loading.{new_player, load}
use hector_recorder.Player.Playing.{on_playback_tick}
use hector_recorder.Player.Control.{play, seek, step_forward}
use hector_recorder.Player.Steps.{loads, plays, here, next}
use hector_recorder.Player.Invariant.{Consistent}
use hector_recorder.Player.Reachable.{reachable-Consistent}
use hector_recorder.Player.Order.{IsReader, LoopPlays, on_playback_tick_plays}
use hector_recorder.Player.Looping.{IsEmptyBag, empty_loop_hangs}
use hector_recorder.Player.Seeking.{seek_lands, step_forward_overtakes}

abbrev at_time : ℕ → Message
at_time ns = record { topic_name = "/odom"; recv_timestamp = ns; serialized_data = some [] }

abbrev first_of : List Message → Option Message × List Message
first_of [] = (none, [])
first_of (m ∷ ms) = (some m, ms)

abbrev topics : List (Topic ℕ)
topics = (record { name = "/odom"; type = "nav_msgs/Odometry"; offered_qos_profiles = [] }) ∷ []

abbrev metadata : Metadata
metadata = record {
  duration = 30;
  starting_time = 100;
  message_count = 3;
  storage_identifier = "mcap";
  topics = "/odom" ∷ [];
}

-- Every bag has the given messages; seeking goes to the first of them.
abbrev bag_with : List Message → Rosbag (List Message) ℕ
bag_with messages = record {
  home = some "/home/u";
  is_directory = λ path. true;
  file_name = λ path. path;
  sorted = λ names. names;
  open_bag = λ path storage_id. ok messages;
  get_metadata = λ r. ok metadata;
  get_all_topics_and_types = λ r. topics;
  set_filter = λ filter r. r;
  reset_filter = λ r. r;
  seek_to = λ ns r. ok messages;
  close = λ r. ok tt;
  has_next = λ r. not (null r);
  read_next = first_of;
  default_qos = 10;
  can_publish = λ topic qos. true;
}

-- No reader finds a message.
abbrev empty_bag : Rosbag (List Message) ℕ
empty_bag = record (bag_with []) { has_next = λ r. false }

abbrev doubles : Doubles ℕ
doubles = record {
  zero = 0;
  one = 1;
  slack = 5;
  lt = ltb;
  le = leb;
  sub = λ x y. x - y;
  div = λ x y. x / y;
  fuzzy_eq = λ x y. x == y;
  seconds = pos_part;
  nanoseconds = λ x. pos x;
}

abbrev bag : Rosbag (List Message) ℕ
bag = bag_with (at_time 100 ∷ at_time 110 ∷ at_time 130 ∷ [])

reader : IsReader bag (λ r. r)
reader = record {
  of_has_next = λ r. refl;
  of_read_next = λ r m ms l. (ap (λ x. (first_of x).0) l, ap (λ x. (first_of x).1) l);
}

reachable-Consistent_example :
    Consistent (play bag [] 0 (load bag doubles "~/run" (new_player doubles))).1
reachable-Consistent_example = reachable-Consistent bag doubles (
    next (next here (loads "~/run" (new_player doubles)))
      (plays [] 0 (load bag doubles "~/run" (new_player doubles))))

-- The first message is buffered, and two are left in the bag.
abbrev player : Player (List Message) ℕ ℕ
player = record {
  state = playing;
  rate = 1;
  looping = false;
  error_message = "";
  bag = record {
    path = "~/run";
    name = "run";
    duration = 30;
    start_ns = 100;
    end_ns = 130;
    topic_count = 1;
    message_count = pos 3;
    topic_list = "/odom" ∷ [];
    storage_id = "mcap";
  };
  stopping = false;
  position = record {
    current_bag_time_ns = 100;
    wall_time_at_last_msg = 0;
    last_msg_bag_time_ns = 100;
    first_message = true;
  };
  pending_msg = some (at_time 100);
  active_filter = [];
  reader = some (at_time 110 ∷ at_time 130 ∷ []);
  outputs = record {
    clock_enabled = true;
    node = true;
    clock_publisher = true;
    publishers = ("/odom", ("nav_msgs/Odometry", 10)) ∷ [];
    disabled_topics = [];
  };
  timer_active = true;
  events = [];
}

abbrev clocks : ℕ → ℕ × ℕ
clocks round = (10, 11)

on_playback_tick_plays_example :
    LoopPlays bag doubles (λ r. r) reader 0 player (on_playback_tick bag doubles 101 clocks player)
on_playback_tick_plays_example =
    on_playback_tick_plays bag doubles (λ r. r) reader 101 clocks player
      (at_time 110 ∷ at_time 130 ∷ []) refl refl refl (omega arith)

abbrev circling : Player (List Message) ℕ ℕ
circling = record player { pending_msg = none; reader = some []; looping = true }

empty : IsEmptyBag empty_bag circling.active_filter circling.bag.path circling.bag.storage_id
empty = record { unread = []; opens = refl; seeks = λ ns. ([], refl, refl, refl) }

empty_loop_hangs_example : on_playback_tick empty_bag doubles 1000 clocks circling ≡ none
empty_loop_hangs_example =
    empty_loop_hangs empty_bag doubles 1000 clocks circling [] empty refl refl refl refl refl refl

seek_lands_example : 100 ≤ (seek doubles bag 7 50 player).position.current_bag_time_ns
seek_lands_example = (seek_lands bag doubles 7 50 player (omega arith) refl).0

step_forward_overtakes_example : (step_forward bag (record player { state = paused })).0 ≡ true
step_forward_overtakes_example =
    (step_forward_overtakes bag doubles (λ r. r) (record player { state = paused })
      (at_time 110 ∷ at_time 130 ∷ []) (at_time 100) (at_time 110) (at_time 130 ∷ []) reader refl
      refl refl refl).0
