-- ===== src/Throttle/Messages.antt =====
-- The MESSAGES throttle keeps its rate.
use hector_recorder.Common.{ℕ, ◌+◌, ◌*◌, ◌≤◌, ◌≡◌, String, List, [], ◌∷◌, some, ok, arith}
use hector_recorder.Common.Map
use hector_recorder.Common.Map.{Map}
use hector_recorder.Throttle.{
  DoubleOps, ThrottleConfig, ThrottleState, messages, pass_by, pass_messages, throttle_pass,
}
use hector_recorder.Throttle.Calls.{
  count_pass, Monotone, end_time, state_of, run, step_state, Monotone-weaken, end_time_mono,
  count_pass_add,
}

module _ {D : Type 0} where
  pass_messages_step :
      (period now : ℕ) (s : ThrottleState D)
      → s.last_time ≤ now
      → let (v, s') = pass_messages period now s in
        (count_pass v 0 * period + s.last_time ≤ s'.last_time) × (s'.last_time ≤ now)
  unfolding pass_messages
  pass_messages_step period now s h = ground arith

module _ {D : Type 0} (ops : DoubleOps D) (configs : Map (ThrottleConfig D)) (topic : String)
    (config : ThrottleConfig D) (found : Map.lookup topic configs ≡ some config)
    (typed : config.type ≡ messages) (period : ℕ)
    (rated : ops.rate_period config.msgs_per_sec ≡ ok period) where
  by_messages :
      (size now : ℕ) (s : ThrottleState D)
      → pass_by config.type ops config size now s ≡ pass_messages period now s
  by_messages size now s = rw (typed, rated)

  step_lem :
      (size now : ℕ) (states : Map (ThrottleState D))
      → (state_of topic states).last_time ≤ now
      → let (v, states') = throttle_pass ops configs topic size now states in
        (count_pass v 0 * period + (state_of topic states).last_time
          ≤ (state_of topic states').last_time)
        × ((state_of topic states').last_time ≤ now)
  step_lem size now states h =
      let (verdict, state) = step_state ops configs topic size now states config found in
      rw (verdict, state, by_messages size now (state_of topic states))
        (pass_messages_step period now (state_of topic states) h)

  -- A topic with a MESSAGES throttle of the given period (above 0 or not), called at clock readings
  -- that never go back: the messages that pass, each counted with a whole period, fit between the
  -- last pass before the run and the last call of the run.
  pub messages_rate :
      (calls : List (ℕ × ℕ)) (states : Map (ThrottleState D))
      → Monotone (state_of topic states).last_time calls
      → (run ops configs topic calls states).0 * period + (state_of topic states).last_time
        ≤ end_time (state_of topic states).last_time calls
  unfolding run
  messages_rate [] states h = omega arith
  messages_rate ((now, size) ∷ calls) states h =
      let (v, states') = throttle_pass ops configs topic size now states in
      let (kept, bounded) = step_lem size now states h.0 in
      grind (
        arith,
        kept,
        bounded,
        count_pass_add v (run ops configs topic calls states').0,
        end_time_mono (state_of topic states').last_time now calls bounded,
        messages_rate calls states' (Monotone-weaken _ now calls bounded h.1),
      )
