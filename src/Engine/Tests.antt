-- ===== src/Engine/Tests.antt =====
-- Recording with a small ROS graph. Doubles are natural numbers here.
use hector_recorder.Common.{ℕ, ◌+◌, ◌-◌, ◌/◌, true, ◌≡◌, refl, ◌⊎◌, [], ◌∷◌, none, some, ok, ltb}
use hector_recorder.Engine.{Doubles, World, Engine}
use hector_recorder.Engine.Starting.{is_idle, start_recording}
use hector_recorder.Engine.Control.{new_engine, pause_recording}
use hector_recorder.Engine.Steps.{starts, pauses, here, next}
use hector_recorder.Engine.Keeping.{Consistent}
use hector_recorder.Engine.Reachable.{Engine-Consistent}
use hector_recorder.Engine.Outcome.{Records, Refuses, start_recording_ends}

abbrev doubles : Doubles ℕ
doubles = record {
  zero = 0;
  add = λ x y. x + y;
  div = λ x y. x / y;
  of_ℕ = λ n. n;
  elapsed = λ from to. to - from;
  over_half = λ x. ltb 0 x;
}

abbrev world : World ℕ
world = record {
  home = some "/home/u";
  user = some "u";
  hostname = "robot";
  stamp = "2024-01-01_00-00-00";
  now = 5;
  create_directories = λ dir. none;
  open_writer = λ path. ok tt;
  close_writer = ok tt;
  split_writer = ok tt;
  topic_names_and_types = ("/odom", "nav_msgs/Odometry" ∷ []) ∷ [];
  publishers = λ topic. ok 1;
  default_qos = 10;
  adapt = λ topic. some 5;
  create_topic = λ topic. true;
  can_subscribe = λ topic. true;
  write = true;
}

abbrev engine : Engine ℕ ℕ
engine = (start_recording world doubles ("/odom" ∷ "/gone" ∷ []) "~/bags" (new_engine doubles)).1

Engine-Consistent_example : Consistent doubles (pause_recording doubles engine)
Engine-Consistent_example = Engine-Consistent doubles (
    next (next here (starts world ("/odom" ∷ "/gone" ∷ []) "~/bags" (new_engine doubles)))
      (pauses engine))

new_engine-Consistent : Consistent {Q = ℕ} doubles (new_engine doubles)
new_engine-Consistent = Engine-Consistent doubles here

new_idle : is_idle (new_engine {Q = ℕ} doubles).state ≡ true
unfolding new_engine
new_idle = refl

start_recording_ends_example : Records world doubles engine ⊎ Refuses world doubles engine
start_recording_ends_example =
    (start_recording_ends world doubles ("/odom" ∷ "/gone" ∷ []) "~/bags" (new_engine doubles)
        new_engine-Consistent).0
      new_idle
