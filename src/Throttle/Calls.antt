-- ===== src/Throttle/Calls.antt =====
-- Runs of throttle_pass calls for one topic, as the subscription callback of that topic makes them.
use hector_recorder.Common.{◌+◌, arith, ℕ, suc, ◌≤◌, ◌≡◌, refl, String, List, [], ◌∷◌, some}
use native.Mathlib.Nat.{le_refl}
use hector_recorder.Common.Map
use hector_recorder.Common.Map.{Map}
use hector_recorder.Throttle.{
  DoubleOps, ThrottleConfig, ThrottleState, Verdict, pass, drop, hangs, throws, new_state, pass_by,
  store_state, throttle_pass,
}

abbrev pub count_pass : Verdict → ℕ → ℕ
count_pass pass n = suc n
count_pass drop n = n
count_pass hangs n = n
count_pass (throws e) n = n

-- Calls are clock readings with message sizes. The readings never go back, from the one given on.
abbrev pub Monotone : ℕ → List (ℕ × ℕ) → Type 0
Monotone t [] = Unit
Monotone t ((now, size) ∷ calls) = (t ≤ now) × Monotone now calls

-- The reading of the last call.
abbrev pub end_time : ℕ → List (ℕ × ℕ) → ℕ
end_time t [] = t
end_time t ((now, size) ∷ calls) = end_time now calls

module _ {D : Type 0} where
  abbrev pub state_of : String → Map (ThrottleState D) → ThrottleState D
  state_of topic states = Map.get_or topic new_state states

  -- How many of the messages pass, and the states in the end.
  unfoldable pub run :
      DoubleOps D
      → Map (ThrottleConfig D)
      → String
      → List (ℕ × ℕ)
      → Map (ThrottleState D)
      → ℕ × Map (ThrottleState D)
  run ops configs topic [] states = (0, states)
  run ops configs topic ((now, size) ∷ calls) states =
      let (v, states') = throttle_pass ops configs topic size now states in
      let (n, states'') = run ops configs topic calls states' in (count_pass v n, states'')

  pub throttle_pass_configured :
      (ops : DoubleOps D) (configs : Map (ThrottleConfig D)) (topic : String) (size now : ℕ)
      (states : Map (ThrottleState D)) (config : ThrottleConfig D)
      → Map.lookup topic configs ≡ some config
      → throttle_pass ops configs topic size now states
        ≡ store_state topic states (pass_by config.type ops config size now (state_of topic states))
  unfolding throttle_pass
  throttle_pass_configured ops configs topic size now states config h = rw h

  -- Where a topic has a configuration, a call of throttle_pass is a step of its branch on the state
  -- of that topic.
  pub step_state :
      (ops : DoubleOps D) (configs : Map (ThrottleConfig D)) (topic : String) (size now : ℕ)
      (states : Map (ThrottleState D)) (config : ThrottleConfig D)
      → Map.lookup topic configs ≡ some config
      → let (v, s) = pass_by config.type ops config size now (state_of topic states) in
        let (v', states') = throttle_pass ops configs topic size now states in
        (v' ≡ v) × (state_of topic states' ≡ s)
  step_state ops configs topic size now states config h =
      rw (throttle_pass_configured ops configs topic size now states config h)
        (refl, Map.get_or-insert_self topic _ _ states)

pub Monotone-weaken : (t u : ℕ) (calls : List (ℕ × ℕ)) → t ≤ u → Monotone u calls → Monotone t calls
Monotone-weaken t u [] h m = tt
Monotone-weaken t u ((now, size) ∷ calls) h m = (omega arith, m.1)

pub end_time_mono : (t u : ℕ) (calls : List (ℕ × ℕ)) → t ≤ u → end_time t calls ≤ end_time u calls
end_time_mono t u [] h = h
end_time_mono t u ((now, size) ∷ calls) h = le_refl (end_time now calls)

pub count_pass_add : (v : Verdict) (n : ℕ) → count_pass v n ≡ count_pass v 0 + n
count_pass_add v n = ground arith
