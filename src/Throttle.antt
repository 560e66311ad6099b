-- ===== src/Throttle.antt =====
-- Per-topic throttling: hector_recorder/include/hector_recorder/throttle_config.hpp, and
-- throttle_pass and update_throttle_configs of hector_recorder/src/modified/recorder_impl.cpp.
--
-- Times are nanoseconds since the epoch of the system clock, which rclcpp::Time keeps at 0 or above;
-- its sums are taken to stay below 2^63. A C++ `double` is a value of the parameter `D`, and what the
-- code computes with doubles is a field of `DoubleOps`, with what rclcpp does: `seconds` is
-- rclcpp::Time::seconds(), and `rate_period` is rclcpp::Rate(hz).period(), which throws where the
-- rate is not above 0. The clock reading `now` is an argument of each call.
pub mod Calls
pub mod Messages
pub mod Bytes
pub mod Frequency
pub mod Update
mod Tests
use hector_recorder.Common.{
  ℕ, zero, suc, ◌+◌, ◌-◌, ◌%◌, ◌^◌, String, Bool, true, false, List, [], ◌∷◌, ◌++◌, Option, none,
  some, ℤ, Result, ok, throw, ltb, leb, ◌==◌, ltb_ℤ, to_int64, if◌then◌else◌,
}
use hector_recorder.Common.Map
use hector_recorder.Common.Map.{Map}

pub record DoubleOps (D : Type 0) : Type 0 where
  pub lt : D → D → Bool
  pub sub : D → D → D
  pub seconds : ℕ → D
  pub rate_period : D → Result ℕ

pub data ThrottleType : Type 0 where
  messages bytes frequency : ThrottleType

pub record ThrottleConfig (D : Type 0) : Type 0 where
  pub type : ThrottleType
  pub msgs_per_sec : D
  pub bytes_per_sec : ℤ
  pub window : D
  pub frequency_hz : D

pub record ThrottleState (D : Type 0) : Type 0 where
  pub last_time : ℕ
  pub frequency_next_time : ℕ
  pub frequency_last_call_time : ℕ
  pub sent_deque : List (D × ℕ)

-- What a call comes to: the message passes or is dropped, an exception leaves the call, or the
-- call does not return.
pub data Verdict : Type 0 where
  pass drop hangs : Verdict
  throws : String → Verdict

abbrev pub new_state : {D : Type 0} → ThrottleState D
new_state = record {
  last_time = 0;
  frequency_next_time = 0;
  frequency_last_call_time = 0;
  sent_deque = [];
}

module _ {D : Type 0} where
  -- The branch of MESSAGES, once the period is known.
  pub pass_messages : ℕ → ℕ → ThrottleState D → Verdict × ThrottleState D
  pass_messages period now s =
      if ltb now s.last_time
      then (pass, record s { last_time = now })
      else if leb period (now - s.last_time)
      then (pass, record s { last_time = now })
      else (drop, s)

  -- The loop that prunes the entries at the front, those before `now_sec - window`.
  unfoldable pub prune : DoubleOps D → D → List (D × ℕ) → List (D × ℕ)
  prune ops cutoff [] = []
  prune ops cutoff ((stamp, size) ∷ rest) =
      let pruned = prune ops cutoff rest in
      if ops.lt stamp cutoff then pruned else (stamp, size) ∷ rest

  -- The sum of the sizes; each partial sum is an int64_t, that is the bit pattern kept here.
  unfoldable pub accumulate : ℕ → List (D × ℕ) → ℕ
  accumulate acc [] = acc
  accumulate acc ((stamp, size) ∷ rest) = accumulate ((acc + size) % 2 ^ 64) rest

  -- The branch of BYTES.
  pub pass_bytes :
      DoubleOps D → ThrottleConfig D → ℕ → ℕ → ThrottleState D → Verdict × ThrottleState D
  pass_bytes ops config msg_size now s =
      let now_sec = ops.seconds now in
      let kept = prune ops (ops.sub now_sec config.window) s.sent_deque in
      if ltb_ℤ (to_int64 (accumulate 0 kept)) config.bytes_per_sec
      then (pass, record s { sent_deque = kept ++ (now_sec, msg_size) ∷ [] })
      else (drop, record s { sent_deque = kept })

-- `do { next_time += period } while (next_time <= now)`, on fuel; `none` is out of fuel.
pub next_after : ℕ → ℕ → ℕ → ℕ → Option ℕ
next_after zero period next now = none
next_after (suc fuel) period next now =
    let rest = next_after fuel period (next + period) now in
    if leb (next + period) now then rest else some (next + period)

module _ {D : Type 0} where
  -- The anchor after a clock jump backward and after the first message.
  abbrev pub anchor : ℕ → ThrottleState D → ℕ
  anchor now s =
      let next = if ltb now s.frequency_last_call_time then now else s.frequency_next_time in
      if next == 0 then now else next

  abbrev pub paced : ThrottleState D → ℕ → Option ℕ → Verdict × ThrottleState D
  paced s next none = (hangs, s)
  paced s next (some next') = (pass, record s { frequency_next_time = next' })

  -- The branch of FREQUENCY, once the period is known. The loop passes `now` after `now + 1` rounds
  -- at most, unless the period is 0.
  pub pass_frequency : ℕ → ℕ → ThrottleState D → Verdict × ThrottleState D
  pass_frequency period now s =
      let next = anchor now s in
      let s' = record s { frequency_next_time = next; frequency_last_call_time = now } in
      if ltb now next then (drop, s') else paced s' next (next_after (suc now) period next now)

  -- `rclcpp::Rate(hz).period()` may throw before the state is touched.
  abbrev pub with_period :
      Result ℕ → ThrottleState D → (ℕ → Verdict × ThrottleState D) → Verdict × ThrottleState D
  with_period (ok period) s f = f period
  with_period (throw e) s f = (throws e, s)

  abbrev pub pass_by :
      ThrottleType
      → DoubleOps D
      → ThrottleConfig D
      → ℕ
      → ℕ
      → ThrottleState D
      → Verdict × ThrottleState D
  pass_by messages ops config size now s =
      with_period (ops.rate_period config.msgs_per_sec) s (λ period. pass_messages period now s)
  pass_by bytes ops config size now s = pass_bytes ops config size now s
  pass_by frequency ops config size now s =
      with_period (ops.rate_period config.frequency_hz) s (λ period. pass_frequency period now s)

  abbrev pub store_state :
      String → Map (ThrottleState D) → Verdict × ThrottleState D → Verdict × Map (ThrottleState D)
  store_state topic states (v, s) = (v, Map.insert topic s states)

  abbrev pub pass_configured :
      Option (ThrottleConfig D)
      → DoubleOps D
      → String
      → ℕ
      → ℕ
      → Map (ThrottleState D)
      → Verdict × Map (ThrottleState D)
  pass_configured none ops topic size now states = (pass, states)
  pass_configured (some config) ops topic size now states =
      store_state topic states
        (pass_by config.type ops config size now (Map.get_or topic new_state states))

  -- throttle_pass
  unfoldable pub throttle_pass :
      DoubleOps D
      → Map (ThrottleConfig D)
      → String
      → ℕ
      → ℕ
      → Map (ThrottleState D)
      → Verdict × Map (ThrottleState D)
  throttle_pass ops configs topic size now states =
      pass_configured (Map.lookup topic configs) ops topic size now states

  -- The loop of update_throttle_configs over the states.
  unfoldable pub retain_configured :
      Map (ThrottleConfig D) → Map (ThrottleState D) → Map (ThrottleState D)
  retain_configured configs [] = []
  retain_configured configs ((topic, s) ∷ states) =
      let rest = retain_configured configs states in
      if Map.contains topic configs then (topic, s) ∷ rest else rest
