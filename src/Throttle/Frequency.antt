-- ===== src/Throttle/Frequency.antt =====
-- The FREQUENCY throttle: its loop ends, its passes keep to the grid, and a period of 0 hangs.
use hector_recorder.Common.{
  ap, ℕ, zero, suc, ◌+◌, ◌*◌, ◌≤◌, ◌<◌, ◌≡◌, ◌≢◌, refl, String, List, [], ◌∷◌, some, none, ok,
  arith, ltb, leb, Bool-cases, inl, inr, leb→le,
}
use native.Mathlib.Nat.{le_of_eq, add-mul}
use hector_recorder.Common.Map
use hector_recorder.Common.Map.{Map}
use hector_recorder.Throttle.{
  DoubleOps, ThrottleConfig, ThrottleState, Verdict, hangs, frequency, pass_by, next_after, anchor,
  pass_frequency, throttle_pass,
}
use hector_recorder.Throttle.Calls.{
  count_pass, Monotone, end_time, state_of, run, step_state, count_pass_add,
}

-- The loop ends at the first point of the grid after `now`, where the fuel covers the way there.
next_after_lem :
    (fuel period next now : ℕ)
    → 0 < period
    → next ≤ now
    → now < next + fuel * period
    → (k : ℕ) × (next_after fuel period next now ≡ some (next + suc k * period))
      × (now < next + suc k * period)
      × (next + suc k * period ≤ now + period)
unfolding next_after
next_after_lem zero period next now p h f = absurd (omega arith)
next_after_lem (suc fuel) period next now p h f = elim (Bool-cases (leb (next + period) now)) [
  | inl more ↦
      let (k, found, late, near) =
        next_after_lem fuel period (next + period) now p (leb→le _ _ more) (grind arith) in
      (suc k, rw more (rw found (ap some (omega arith))), omega arith, omega arith)
  | inr done ↦ (0, rw done (ap some (omega arith)), ground arith, ground arith)
]

-- A period of 0 exhausts every fuel.
next_after_zero : (fuel next now : ℕ) → next ≤ now → next_after fuel 0 next now ≡ none
unfolding next_after
next_after_zero zero next now h = refl
next_after_zero (suc fuel) next now h = ground (arith, next_after_zero fuel (next + 0) now)

le-mul : (n period : ℕ) → 0 < period → n ≤ n * period
le-mul zero period p = omega arith
le-mul (suc n) period p = omega (arith, le-mul n period p)

module _ {D : Type 0} where
  -- A call at a clock that has not gone back, of a throttle that has its anchor, and the anchor no
  -- further ahead than a period.
  pass_frequency_step :
      (period now : ℕ) (s : ThrottleState D)
      → 0 < period
      → s.frequency_last_call_time ≤ now
      → s.frequency_next_time ≢ 0
      → s.frequency_next_time ≤ now + period
      → let (v, s') = pass_frequency period now s in
        (v ≢ hangs)
        × (s'.frequency_last_call_time ≡ now)
        × (s'.frequency_next_time ≢ 0)
        × (s'.frequency_next_time ≤ now + period)
        × (count_pass v 0 * period + s.frequency_next_time ≤ s'.frequency_next_time)
  unfolding pass_frequency
  pass_frequency_step period now s p clock anchored near =
      elim (Bool-cases (ltb now s.frequency_next_time)) [
        | inl early ↦ ground arith
        | inr due ↦
            let (k, found, late, close) =
              next_after_lem (suc now) period s.frequency_next_time now p (ground arith)
                (omega (arith, le-mul (suc now) period p)) in
            ground (arith, found, late, close, le-mul (suc k) period p)
      ]

-- What a run of calls keeps, at the clock reading `t` of its last call.
pub record Paced {D : Type 0} (period t : ℕ) (s : ThrottleState D) : Type 0 where
  pub clock : s.frequency_last_call_time ≤ t
  pub anchored : s.frequency_next_time ≢ 0
  pub near : s.frequency_next_time ≤ t + period

Paced-later :
    {D : Type 0} (period t u : ℕ) (s : ThrottleState D)
    → t ≤ u
    → Paced period t s
    → Paced period u s
Paced-later period t u s h q = record {
  clock = omega (arith, q.clock);
  anchored = q.anchored;
  near = omega (arith, q.near);
}

mul_count :
    (v : Verdict) (n period : ℕ) → count_pass v n * period ≡ count_pass v 0 * period + n * period
mul_count v n period = rw (count_pass_add v n) (add-mul (count_pass v 0) n period)

module _ {D : Type 0} where
  -- No call of the run hangs.
  abbrev pub AllReturn :
      DoubleOps D → Map (ThrottleConfig D) → String → List (ℕ × ℕ) → Map (ThrottleState D) → Type 0
  AllReturn ops configs topic [] states = Unit
  AllReturn ops configs topic ((now, size) ∷ calls) states =
      let (v, states') = throttle_pass ops configs topic size now states in
      (v ≢ hangs) × AllReturn ops configs topic calls states'

module _ {D : Type 0} (ops : DoubleOps D) (configs : Map (ThrottleConfig D)) (topic : String)
    (config : ThrottleConfig D) (found : Map.lookup topic configs ≡ some config)
    (typed : config.type ≡ frequency) (period : ℕ)
    (rated : ops.rate_period config.frequency_hz ≡ ok period) where
  by_frequency :
      (size now : ℕ) (s : ThrottleState D)
      → pass_by config.type ops config size now s ≡ pass_frequency period now s
  by_frequency size now s = rw (typed, rated)

  step_lem :
      (size now : ℕ) (states : Map (ThrottleState D))
      → 0 < period
      → Paced period now (state_of topic states)
      → let (v, states') = throttle_pass ops configs topic size now states in
        (v ≢ hangs)
        × Paced period now (state_of topic states')
        × (count_pass v 0 * period + (state_of topic states).frequency_next_time
            ≤ (state_of topic states').frequency_next_time)
  step_lem size now states p h =
      let (verdict, state) = step_state ops configs topic size now states config found in
      rw (verdict, state, by_frequency size now (state_of topic states))
        (let (runs, clock, anchored, near, kept) =
            pass_frequency_step period now (state_of topic states) p h.clock h.anchored h.near in
          (runs, record { clock = le_of_eq clock; anchored = anchored; near = near }, kept))

  -- A topic with a FREQUENCY throttle of a period above 0, called at clock readings that never go
  -- back, whose next pass is due within a period of the reading `t`: every call returns, and the
  -- messages that pass, each counted with a whole period, fit between the pass that is due and one
  -- period after the last call.
  pub frequency_rate :
      (t : ℕ) (calls : List (ℕ × ℕ)) (states : Map (ThrottleState D))
      → 0 < period
      → Paced period t (state_of topic states)
      → Monotone t calls
      → AllReturn ops configs topic calls states
        × ((run ops configs topic calls states).0 * period
              + (state_of topic states).frequency_next_time
            ≤ end_time t calls + period)
  unfolding run
  frequency_rate t [] states p h m = (tt, omega arith)
  frequency_rate t ((now, size) ∷ calls) states p h m =
      let (v, states') = throttle_pass ops configs topic size now states in
      let (returns, h', kept) = step_lem size now states p (Paced-later period t now _ m.0 h) in
      let (rest, bounded) = frequency_rate now calls states' p h' m.1 in
      (
        (returns, rest),
        omega (arith, kept, bounded, mul_count v (run ops configs topic calls states').0 period),
      )

module _ {D : Type 0} where
  -- A FREQUENCY throttle whose period comes out as 0, as it does for a rate that divides a second
  -- into less than a nanosecond, never returns from a call at which a message is due: no number of
  -- rounds ends its loop, and the call hangs.
  pub zero_period_hangs :
      (now : ℕ) (s : ThrottleState D)
      → anchor now s ≤ now
      → ((fuel : ℕ) → next_after fuel 0 (anchor now s) now ≡ none)
        × ((pass_frequency 0 now s).0 ≡ hangs)
  unfolding pass_frequency
  zero_period_hangs now s due = (
    λ fuel. next_after_zero fuel (anchor now s) now due,
    ground (arith, next_after_zero (suc now) (anchor now s) now due),
  )
