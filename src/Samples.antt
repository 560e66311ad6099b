-- ===== src/Samples.antt =====
-- Values that the tests of several modules run the code on: options, a recorder, files and the outside.
-- Doubles are whole numbers here.
use hector_recorder.Common.{
  ℕ, ◌-◌, ◌/◌, String, ◌<>◌, Bool, true, false, [], ◌∷◌, none, ok, throw, pos, negsuc, ltb, ◌==◌,
  str_eq, if◌then◌else◌,
}
use hector_recorder.Options.{
  CustomOptions, RecordOptions, StorageOptions, Qos, RmwTime, History, Reliability, Durability,
  Liveliness,
}
use hector_recorder.Throttle.{DoubleOps}
use hector_recorder.Recorder.{Outside, RecorderImpl, Future, Endpoint}
use hector_recorder.Utils.Output.{FileSystem}

abbrev pub nanos : DoubleOps ℕ
nanos = record {
  lt = ltb;
  sub = λ a b. a - b;
  seconds = λ t. t;
  rate_period =
      λ hz. if hz == 0 then throw "rate must be greater than 0" else ok (1_000_000_000 / hz);
}

abbrev pub no_time : RmwTime
no_time = record { sec = pos 0; nsec = 0 }

abbrev pub default_qos : Qos
default_qos = record {
  history = History.keep_last;
  depth = 10;
  reliability = Reliability.reliable;
  durability = Durability.volatile;
  deadline = no_time;
  lifespan = no_time;
  liveliness = Liveliness.system_default;
  liveliness_lease_duration = no_time;
  avoid_ros_namespace_conventions = false;
}

abbrev pub storage_options : StorageOptions
storage_options = record {
  uri = "/bags/run";
  storage_id = "mcap";
  max_bagfile_size = 0;
  max_bagfile_duration = 0;
  max_cache_size = 100;
  storage_preset_profile = "";
  storage_config_uri = "";
  snapshot_mode = false;
  start_time_ns = negsuc 0;
  end_time_ns = negsuc 0;
  custom_data = [];
}

abbrev pub record_options : RecordOptions
record_options = record {
  all_topics = true;
  all_services = false;
  is_discovery_disabled = false;
  topics = [];
  topic_types = [];
  services = [];
  exclude_topics = [];
  exclude_topic_types = [];
  exclude_service_events = [];
  rmw_serialization_format = "cdr";
  topic_polling_interval = pos 100;
  regex = "";
  exclude_regex = "";
  node_prefix = "";
  compression_mode = "";
  compression_format = "";
  compression_queue_size = 0;
  compression_threads = 0;
  compression_threads_priority = pos 0;
  topic_qos_profile_overrides = [];
  include_hidden_topics = false;
  include_unpublished_topics = false;
  ignore_leaf_topics = false;
  start_paused = false;
  use_sim_time = false;
  disable_keyboard_controls = false;
}

abbrev pub custom_options : CustomOptions ℕ
custom_options = record {
  node_name = "recorder";
  config_path = "";
  qos_profile_overrides_path = "";
  status_topic = "recorder_status";
  publish_status = true;
  topic_throttle = [];
  recorded_by = "";
  preset_names = [];
  active_preset = "";
}

abbrev pub odometry : Endpoint
odometry = record {
  topic_type = "nav_msgs/msg/Odometry";
  profile = default_qos;
  hash_version = 1;
  hash_value = "RIHS01";
}

-- Everything works, and there is one topic.
abbrev pub calm : Outside
calm = record {
  rmw_format = "cdr";
  expand_name = λ name. ok name;
  filter_topics = λ options. ("/odom", "nav_msgs/msg/Odometry") ∷ [];
  publishers_info = λ topic. odometry ∷ [];
  open_writer = λ options. ok tt;
  close_writer = ok tt;
  split_bagfile = ok tt;
  create_topic = λ is_open topic. if is_open then ok tt else throw "Bag is not open.";
  create_subscription = λ topic qos. ok true;
  adapt_request_to_offers = λ topic infos. default_qos;
  stringify_hash = λ value. value;
  rclcpp_ok = true;
  clock_started = true;
  joined = true;
  woken = true;
}

-- The disk is full.
abbrev pub full : Outside
full = record calm { open_writer = λ options. throw "no space left on device" }

abbrev pub fresh : RecorderImpl ℕ
fresh = record {
  storage_options = storage_options;
  record_options = record_options;
  topic_filter = record_options;
  subscriptions = [];
  stamped_by_node = [];
  topics_info = [];
  topics_warned_about_incompatibility = [];
  serialization_format = "";
  topic_qos_profile_overrides = [];
  in_recording = false;
  paused = false;
  stop_flag = false;
  discovery_future = Future.invalid;
  event_thread_running = false;
  event_publisher_thread_should_exit = false;
  write_split_has_occurred = false;
  bag_split_info = record { closed_file = ""; opened_file = "" };
  files = [];
  first_msg_received = false;
  first_stamp = 0;
  throttle_configs = [];
  throttle_states = [];
  writer = [];
}

-- A recorder in the middle of its work.
abbrev pub busy : RecorderImpl ℕ
busy = record fresh {
  in_recording = true;
  discovery_future = Future.discovering;
  event_thread_running = true;
  files = "/bags/run" ∷ [];
}

-- Below a root, a directory /bags with a bag /bags/old; only these three are there.
abbrev parent_of : String → String
parent_of p =
    if str_eq p "/bags/old" then "/bags" else if str_eq p "/bags/new" then "/bags" else "/"

abbrev depth_of : String → ℕ
depth_of p =
    if str_eq p "/bags/old"
    then 2
    else if str_eq p "/bags/new"
    then 2
    else if str_eq p "/"
    then 0
    else 1

abbrev is_there : String → Bool
is_there p =
    if str_eq p "/"
    then true
    else if str_eq p "/bags"
    then true
    else if str_eq p "/bags/old"
    then true
    else str_eq p "/bags/old/metadata.yaml"

abbrev pub files : FileSystem
files = record {
  current_path = "/bags";
  local_time = "2025_01_01-12_00_00";
  getenv = λ name. none;
  exists = is_there;
  is_directory = λ p. if str_eq p "/bags/old/metadata.yaml" then false else is_there p;
  is_regular_file = λ p. str_eq p "/bags/old/metadata.yaml";
  lexically_normal = λ p. p;
  parent_path = parent_of;
  join = λ p q. p <> "/" <> q;
  depth = depth_of;
  create_directories = λ p. ok tt;
}
