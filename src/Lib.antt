-- ===== src/Lib.antt =====
-- hector_recorder: a model of the ROS 2 bag recorder of this repository, and what holds of it.
--
-- The recorder subscribes to the topics of the ROS graph and writes what they publish to a rosbag2 bag.
-- A node offers services to start, stop, pause and split a recording and to change its configuration
-- while it runs; below it a RecorderImpl finds topics in a discovery thread, limits the rate of each
-- topic, keeps statistics, and notes the files of the bag in an event thread.
--
-- The files, with the code that each is about:
--   Common            native numbers, texts, maps keyed by texts, integers, results that may throw
--   Options           CustomOptions of hector_recorder/include/hector_recorder/utils.h, and the fields of
--                     the rosbag2 and rmw options that the code reads
--   Throttle          hector_recorder/include/hector_recorder/throttle_config.hpp and throttle_pass,
--                     update_throttle_configs of hector_recorder/src/modified/recorder_impl.cpp
--   TopicInformation  hector_recorder/include/hector_recorder/topic_information.hpp
--   Recorder          RecorderImpl: hector_recorder/src/modified/recorder_impl.cpp. Topics has the
--                     subscriptions, Discovery the discovery thread, Control what the owner calls and the
--                     event thread, Incoming the callbacks of the subscriptions; Steps puts them together
--   Utils             hector_recorder/src/utils.cpp: Expand has expandUserAndEnv, Output has
--                     resolveOutputDirectory, Clip clipString and ensureLeadingSlash;
--                     Infrastructure has isInfrastructureService of
--                     hector_recorder/include/hector_recorder/utils.h
--   Config            hector_recorder/src/config_yaml.cpp: Qos, Throttling and Parse read a
--                     configuration, Serialize writes one; Lookups and Limits lead to RoundTrip
--   Node              hector_recorder/src/recorder_node.cpp and hector_recorder/src/service_handlers.cpp:
--                     Handlers has start, stop and apply, Services pause, resume and split, Bags the
--                     deletion of bags and the presets; Shown has the published state
--   Transfer          rqml_recorder/src/bag_transfer.cpp, copying a bag by rsync: Quote has the command
--                     that is shown, Parsing the lines of rsync, Process the start, the output and the end
--   Player            rqml_recorder/src/bag_player_engine.cpp, playing a bag: Loading opens and closes
--                     bags, Playing has the timer, Control the calls of the user, Steps puts them together
--   Engine            rqml_recorder/src/bag_recorder_engine.cpp, the recorder of the plugin: Starting has
--                     startRecording, Control the other operations, Steps puts them together
--   Presets           rqml_recorder/src/preset_store.cpp
--   Scanner           rqml_recorder/src/local_bag_scanner.cpp: Bags lists, reads and deletes bags, Completion
--                     has completePath
--   Samples           values that the tests of several modules run the code on
--
-- How the code is written here. A record holds the state of a class, and a method is a function from
-- the state to the new state, with what it returns or throws. An exception is `throw` with its text.
-- What ROS, rosbag2, yaml-cpp, the file system and the clocks answer is an argument: `Outside`, `Yaml`,
-- `FileSystem`, `World`, and the clock readings of each call. A C++ double is a value of a type `D`, and
-- what the code does with doubles is a field of `DoubleOps` or `Rolling`. Unsigned 64-bit counters keep
-- their `% 2 ^ 64`; the signed counters of the plugin (rqml_recorder), one of 32 bits, are taken not to
-- overflow; times are nanoseconds whose sums are taken to stay below 2^63. Log output is left out. A
-- method that holds a mutex from its start to its end is one step; a round of a thread's loop is one
-- step as well; steps may come in any order, and interleavings inside a step are not modelled.
--
-- Fuel. The loop that advances the pacing anchor has `now + 1` rounds, which is enough for every period
-- above 0; running out of fuel stands for a loop that does not end. The search for a bag above a
-- directory has one round more than the depth of the path, which is enough where every path has a
-- parent that is empty, itself or less deep. A tick of the player has as many rounds as it is given; 101
-- are enough where it does not loop.
--
-- Not modelled: the terminal interface (hector_recorder/src/terminal_ui.cpp), the command line and the
-- entry points, the texts for sizes and rates, the listing of bags and the writing of a configuration
-- file by the node, and of the RQml plugin (rqml_recorder) its user interface in QML and the conversion
-- of values for it. They are mostly input and output. hector_recorder/include/CLI11.hpp is a copy of
-- another project.
pub mod Common
pub mod Throttle
pub mod Options
pub mod TopicInformation
pub mod Recorder
pub mod Utils
pub mod Config
pub mod Node
pub mod Transfer
pub mod Player
pub mod Engine
pub mod Presets
pub mod Scanner
pub mod Samples
