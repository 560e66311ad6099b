-- ===== src/Throttle/Tests.antt =====
-- Runs of the throttle at concrete inputs. Doubles are whole nanoseconds here.
use hector_recorder.Common.{
  ℕ, ◌+◌, ◌-◌, ◌*◌, ◌/◌, ◌≤◌, ◌<◌, ◌≡◌, refl, List, [], ◌∷◌, none, ok, throw, Result, arith, pos,
  ltb, ◌==◌, if◌then◌else◌,
}
use hector_recorder.Common.Map
use hector_recorder.Common.Map.{Map}
use hector_recorder.Throttle.{
  DoubleOps, ThrottleConfig, ThrottleState, messages, bytes, frequency, hangs, new_state,
  throttle_pass, pass_frequency, pass_messages, pass_bytes, prune, accumulate, next_after, anchor,
  retain_configured,
}
use hector_recorder.Throttle.Calls.{run}
use hector_recorder.Throttle.Messages.{messages_rate}
use hector_recorder.Throttle.Bytes.{bytes_passed, bytes_rate}
use hector_recorder.Throttle.Frequency.{AllReturn, frequency_rate, zero_period_hangs}
use hector_recorder.Throttle.Update.{lookup-retain_configured}

abbrev period_of : ℕ → Result ℕ
period_of hz = if hz == 0 then throw "rate must be greater than 0" else ok (1_000_000_000 / hz)

abbrev nanos : DoubleOps ℕ
nanos = record { lt = ltb; sub = λ a b. a - b; seconds = λ t. t; rate_period = period_of }

abbrev two_per_second : ThrottleConfig ℕ
two_per_second = record {
  type = messages;
  msgs_per_sec = 2;
  bytes_per_sec = pos 0;
  window = 0;
  frequency_hz = 0;
}

abbrev kilobyte : ThrottleConfig ℕ
kilobyte = record {
  type = bytes;
  msgs_per_sec = 0;
  bytes_per_sec = pos 1000;
  window = 1_000_000_000;
  frequency_hz = 0;
}

abbrev paced_at_two : ThrottleConfig ℕ
paced_at_two = record {
  type = frequency;
  msgs_per_sec = 0;
  bytes_per_sec = pos 0;
  window = 0;
  frequency_hz = 2;
}

abbrev configs : Map (ThrottleConfig ℕ)
configs = ("/odom", two_per_second) ∷ ("/image", kilobyte) ∷ ("/scan", paced_at_two) ∷ []

abbrev no_states : Map (ThrottleState ℕ)
no_states = []

abbrev calls : List (ℕ × ℕ)
calls =
    (5_000_000_000, 600) ∷ (5_100_000_000, 600) ∷ (5_200_000_000, 600) ∷ (5_600_000_000, 600) ∷ []

abbrev started : ThrottleState ℕ
started = record {
  last_time = 0;
  frequency_next_time = 5_000_000_000;
  frequency_last_call_time = 4_900_000_000;
  sent_deque = [];
}

abbrev scan_states : Map (ThrottleState ℕ)
scan_states = ("/scan", started) ∷ []

odom_run : (run nanos configs "/odom" calls no_states).0 ≡ 2
unfolding run throttle_pass pass_messages Map.lookup Map.get_or Map.insert
odom_run = refl

image_run : (run nanos configs "/image" calls no_states).0 ≡ 2
unfolding run throttle_pass pass_bytes prune accumulate Map.lookup Map.get_or Map.insert
image_run = refl

scan_run : (run nanos configs "/scan" calls scan_states).0 ≡ 2
unfolding run throttle_pass pass_frequency next_after Map.lookup Map.get_or Map.insert
scan_run = refl

messages_rate_example :
    (run nanos configs "/odom" calls no_states).0 * 500_000_000 + 0 ≤ 5_600_000_000
unfolding Map.lookup Map.get_or
messages_rate_example =
    messages_rate nanos configs "/odom" two_per_second refl refl 500_000_000 refl calls no_states
      (omega arith)

bytes_rate_example : bytes_passed nanos configs "/image" calls no_states < 1600
unfolding Map.lookup Map.get_or
bytes_rate_example =
    bytes_rate nanos configs "/image" kilobyte refl refl 1000 600 refl (omega arith) calls no_states
      (omega arith) ((refl, (refl, (refl, tt))), ((refl, (refl, tt)), ((refl, tt), (tt, tt))))
      (omega arith)

frequency_rate_example :
    AllReturn nanos configs "/scan" calls scan_states
    × ((run nanos configs "/scan" calls scan_states).0 * 500_000_000 + 5_000_000_000
        ≤ 6_100_000_000)
unfolding Map.lookup Map.get_or
frequency_rate_example =
    frequency_rate nanos configs "/scan" paced_at_two refl refl 500_000_000 refl 4_900_000_000 calls
      scan_states (omega arith)
      (record { clock = omega arith; anchored = omega arith; near = omega arith }) (omega arith)

zero_period_hangs_example :
    ((fuel : ℕ) → next_after fuel 0 (anchor 7 (new_state {D = ℕ})) 7 ≡ none)
    × ((pass_frequency 0 7 (new_state {D = ℕ})).0 ≡ hangs)
zero_period_hangs_example = zero_period_hangs 7 new_state (omega arith)

lookup-retain_configured_example :
    Map.lookup "/scan" (retain_configured (("/odom", two_per_second) ∷ []) scan_states) ≡ none
unfolding Map.contains
lookup-retain_configured_example =
    lookup-retain_configured (("/odom", two_per_second) ∷ []) scan_states "/scan"
