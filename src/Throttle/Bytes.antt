-- ===== src/Throttle/Bytes.antt =====
-- The BYTES throttle keeps its budget over the sliding window: throttle_pass of
-- hector_recorder/src/modified/recorder_impl.cpp.
use mathlib.Core.List.{append-nil, append_assoc}
use hector_recorder.Common.{
  refl, sym, ap, ◌∙◌, ◌⊎◌, inl, inr, All, false, ℕ, ◌+◌, ◌%◌, ◌^◌, ◌≤◌, ◌<◌, ◌≡◌, ◌↔◌, String, List,
  [], ◌∷◌, ◌++◌, some, arith, pos, ltb, ltb_ℤ, to_int64, to_int64_small, if◌then◌else◌,
}
use hector_recorder.Common.Map
use hector_recorder.Common.Map.{Map}
use hector_recorder.Throttle.{
  DoubleOps, ThrottleConfig, ThrottleState, Verdict, pass, drop, hangs, throws, bytes, pass_by,
  pass_bytes, prune, accumulate, throttle_pass,
}
use hector_recorder.Throttle.Calls.{state_of, run, step_state}

abbrev add_passed : Verdict → ℕ → ℕ → ℕ
add_passed pass size n = size + n
add_passed drop size n = n
add_passed hangs size n = n
add_passed (throws e) size n = n

module _ {D : Type 0} where
  -- The bytes of a window, with no wrap.
  abbrev pub total : List (D × ℕ) → ℕ
  total [] = 0
  total ((stamp, size) ∷ rest) = size + total rest

  accumulate-total :
      (acc : ℕ) (xs : List (D × ℕ)) → acc + total xs < 2 ^ 64 → accumulate acc xs ≡ acc + total xs
  unfolding accumulate
  accumulate-total acc [] h = omega arith
  accumulate-total acc ((stamp, size) ∷ rest) h =
      let e : (acc + size) % 2 ^ 64 ≡ acc + size = omega arith in
      rw e (omega (arith, accumulate-total (acc + size) rest (omega arith)))

  total-prune-le :
      (ops : DoubleOps D) (cutoff : D) (xs : List (D × ℕ)) → total (prune ops cutoff xs) ≤ total xs
  unfolding prune
  total-prune-le ops cutoff [] = omega arith
  total-prune-le ops cutoff ((stamp, size) ∷ rest) = ground (arith, total-prune-le ops cutoff rest)

  total-append :
      (xs : List (D × ℕ)) (stamp : D) (size : ℕ)
      → total (xs ++ (stamp, size) ∷ []) ≡ total xs + size
  total-append [] stamp size = omega arith
  total-append ((t, n) ∷ rest) stamp size = omega (arith, total-append rest stamp size)

  total-concat : (xs ys : List (D × ℕ)) → total (xs ++ ys) ≡ total xs + total ys
  total-concat [] ys = omega arith
  total-concat ((t, n) ∷ rest) ys = omega (arith, total-concat rest ys)

  -- The window that a call looks at.
  abbrev pub window_at : DoubleOps D → ThrottleConfig D → ℕ → ThrottleState D → List (D × ℕ)
  window_at ops config now s = prune ops (ops.sub (ops.seconds now) config.window) s.sent_deque

  pass_bytes_keeps :
      (ops : DoubleOps D) (config : ThrottleConfig D) (size now : ℕ) (s : ThrottleState D)
      (kept : List (D × ℕ))
      → window_at ops config now s ≡ kept
      → let (v, s') = pass_bytes ops config size now s in
        ((v ≡ pass) × (s'.sent_deque ≡ kept ++ (ops.seconds now, size) ∷ []))
        ⊎ ((v ≡ drop) × (s'.sent_deque ≡ kept))
  unfolding pass_bytes
  pass_bytes_keeps ops config size now s kept h = rw (sym h) (ground arith)

  small_sum :
      (limit : ℕ) (xs : List (D × ℕ))
      → total xs < 2 ^ 63
      → ltb_ℤ (to_int64 (accumulate 0 xs)) (pos limit) ≡ ltb (total xs) limit
  small_sum limit xs h =
      rw (accumulate-total 0 xs (omega arith))
        (rw (to_int64_small (0 + total xs) (omega arith)) (ground arith))

  pass_bytes_small :
      (ops : DoubleOps D) (config : ThrottleConfig D) (limit size now : ℕ) (s : ThrottleState D)
      → config.bytes_per_sec ≡ pos limit
      → total (window_at ops config now s) < 2 ^ 63
      → let kept = window_at ops config now s in
        pass_bytes ops config size now s ≡ (
          if ltb (total kept) limit
          then (pass, record s { sent_deque = kept ++ (ops.seconds now, size) ∷ [] })
          else (drop, record s { sent_deque = kept }))
  unfolding pass_bytes
  pass_bytes_small ops config limit size now s budget h =
      rw budget (rw (small_sum limit (window_at ops config now s) h))

  pass_bytes_step :
      (ops : DoubleOps D) (config : ThrottleConfig D) (limit most size now : ℕ)
      (s : ThrottleState D)
      → config.bytes_per_sec ≡ pos limit
      → limit + most < 2 ^ 63
      → size ≤ most
      → total s.sent_deque < limit + most
      → let (v, s') = pass_bytes ops config size now s in
        let seen = total (window_at ops config now s) in
        (total s'.sent_deque < limit + most)
        × ((v ≡ pass) ↔ (seen < limit))
        × ((v ≡ drop) ↔ (limit ≤ seen))
        × (v ≡ pass → total s'.sent_deque ≡ seen + size)
  pass_bytes_step ops config limit most size now s budget room small h =
      let fits = total-prune-le ops (ops.sub (ops.seconds now) config.window) s.sent_deque in
      rw (pass_bytes_small ops config limit size now s budget (omega (arith, fits)))
        (ground (arith, fits, total-append (window_at ops config now s) (ops.seconds now) size))

module _ {D : Type 0} (ops : DoubleOps D) (configs : Map (ThrottleConfig D)) (topic : String) where
  -- The bytes of the messages of a run that pass.
  unfoldable pub bytes_passed : List (ℕ × ℕ) → Map (ThrottleState D) → ℕ
  bytes_passed [] states = 0
  bytes_passed ((now, size) ∷ calls) states =
      let (v, states') = throttle_pass ops configs topic size now states in
      let rest = bytes_passed calls states' in add_passed v size rest

module _ {D : Type 0} (ops : DoubleOps D) (config : ThrottleConfig D) where
  -- No call is made as late as the window of the limit, or later, after a call at `stamp`.
  abbrev pub Stays : D → List (ℕ × ℕ) → Type 0
  Stays stamp [] = Unit
  Stays stamp ((now, size) ∷ calls) =
      (ops.lt stamp (ops.sub (ops.seconds now) config.window) ≡ false) × Stays stamp calls

  -- All calls of a run lie within one window.
  abbrev pub InWindow : List (ℕ × ℕ) → Type 0
  InWindow [] = Unit
  InWindow ((now, size) ∷ calls) = Stays (ops.seconds now) calls × InWindow calls

module _ {D : Type 0} (ops : DoubleOps D) (configs : Map (ThrottleConfig D)) (topic : String)
    (config : ThrottleConfig D) (found : Map.lookup topic configs ≡ some config)
    (typed : config.type ≡ bytes) (limit most : ℕ) (budget : config.bytes_per_sec ≡ pos limit)
    (room : limit + most < 2 ^ 63) where
  by_bytes :
      (size now : ℕ) (s : ThrottleState D)
      → pass_by config.type ops config size now s ≡ pass_bytes ops config size now s
  by_bytes size now s = rw typed

  -- A call of throttle_pass for a topic with a BYTES throttle of `limit` bytes, for a message of at
  -- most `most` bytes, where the window holds less than `limit + most` bytes before: it still does
  -- after. The message passes exactly if the entries that pruning leaves hold less than the limit, is
  -- dropped exactly if they do not, and a message that passes is added to those entries.
  bytes_budget :
      (size now : ℕ) (states : Map (ThrottleState D))
      → size ≤ most
      → total (state_of topic states).sent_deque < limit + most
      → let (v, states') = throttle_pass ops configs topic size now states in
        let seen = total (window_at ops config now (state_of topic states)) in
        (total (state_of topic states').sent_deque < limit + most)
        × ((v ≡ pass) ↔ (seen < limit))
        × ((v ≡ drop) ↔ (limit ≤ seen))
        × (v ≡ pass → total (state_of topic states').sent_deque ≡ seen + size)
  bytes_budget size now states small h =
      let (verdict, state) = step_state ops configs topic size now states config found in
      rw (verdict, state, by_bytes size now (state_of topic states))
        (pass_bytes_step ops config limit most size now (state_of topic states) budget room small h)

  abbrev pub AllSmall : List (ℕ × ℕ) → Type 0
  AllSmall [] = Unit
  AllSmall ((now, size) ∷ calls) = (size ≤ most) × AllSmall calls

  -- Over any run of calls with such messages, at any clock readings, the window of the topic never
  -- holds `limit + most` bytes or more, so the budget is overrun by less than one message.
  bytes_window :
      (calls : List (ℕ × ℕ)) (states : Map (ThrottleState D))
      → AllSmall calls
      → total (state_of topic states).sent_deque < limit + most
      → total (state_of topic (run ops configs topic calls states).1).sent_deque < limit + most
  unfolding run
  bytes_window [] states small h = h
  bytes_window ((now, size) ∷ calls) states small h =
      let (v, states') = throttle_pass ops configs topic size now states in
      bytes_window calls states' small.1 (bytes_budget size now states small.0 h).0

  abbrev AllStay : List (D × ℕ) → List (ℕ × ℕ) → Type 0
  AllStay entries calls = All (λ (e : D × ℕ). Stays ops config e.0 calls) entries

  prune-append :
      (now size : ℕ) (calls : List (ℕ × ℕ)) (old recent : List (D × ℕ))
      → AllStay recent ((now, size) ∷ calls)
      → let cutoff = ops.sub (ops.seconds now) config.window in
        prune ops cutoff (old ++ recent) ≡ prune ops cutoff old ++ recent
  unfolding prune
  prune-append now size calls [] [] h = refl
  prune-append now size calls [] ((stamp, n) ∷ recent) h = rw (h.0.0) refl
  prune-append now size calls ((stamp, n) ∷ old) recent h =
      ground (arith, prune-append now size calls old recent h)

  AllStay-later :
      (now size : ℕ) (calls : List (ℕ × ℕ)) (recent : List (D × ℕ))
      → AllStay recent ((now, size) ∷ calls)
      → AllStay recent calls
  AllStay-later now size calls [] h = tt
  AllStay-later now size calls (e ∷ recent) h = (h.0.1, AllStay-later now size calls recent h.1)

  AllStay-append :
      (calls : List (ℕ × ℕ)) (recent : List (D × ℕ)) (e : D × ℕ)
      → AllStay recent calls
      → Stays ops config e.0 calls
      → AllStay (recent ++ e ∷ []) calls
  AllStay-append calls [] e h k = (k, tt)
  AllStay-append calls (f ∷ recent) e h k = (h.0, AllStay-append calls recent e h.1 k)

  -- What a call leaves of the entries that were made within the window.
  step_keeps :
      (now size : ℕ) (states : Map (ThrottleState D)) (kept : List (D × ℕ))
      → window_at ops config now (state_of topic states) ≡ kept
      → let (v, states') = throttle_pass ops configs topic size now states in
        let left = (state_of topic states').sent_deque in
        ((v ≡ pass) × (left ≡ kept ++ (ops.seconds now, size) ∷ [])) ⊎ ((v ≡ drop) × (left ≡ kept))
  step_keeps now size states kept h =
      let (verdict, state) = step_state ops configs topic size now states config found in
      rw (verdict, state, by_bytes size now (state_of topic states))
        (pass_bytes_keeps ops config size now (state_of topic states) kept h)

  passed_kept :
      (calls : List (ℕ × ℕ)) (states : Map (ThrottleState D)) (old recent : List (D × ℕ))
      → (state_of topic states).sent_deque ≡ old ++ recent
      → AllStay recent calls
      → InWindow ops config calls
      → total recent + bytes_passed ops configs topic calls states
        ≤ total (state_of topic (run ops configs topic calls states).1).sent_deque
  unfolding run bytes_passed
  passed_kept [] states old recent h stay within = rw h (omega (arith, total-concat old recent))
  passed_kept ((now, size) ∷ calls) states old recent h stay within =
      let cutoff = ops.sub (ops.seconds now) config.window in
      let pruned = prune ops cutoff old in
      let e : D × ℕ = (ops.seconds now, size) in
      let (v, states') = throttle_pass ops configs topic size now states in
      let later = AllStay-later now size calls recent stay in
      let window : window_at ops config now (state_of topic states) ≡ pruned ++ recent =
        ap (prune ops cutoff) h ∙ prune-append now size calls old recent stay in
      elim (step_keeps now size states (pruned ++ recent) window) [
        | inl (passes, left) ↦ rw passes (
            omega (
              arith,
              total-concat recent (e ∷ []),
              passed_kept calls states' pruned (recent ++ e ∷ [])
                  (left ∙ append_assoc pruned recent (e ∷ []))
                  (AllStay-append calls recent e later within.0) within.1,
            ))
        | inr (drops, left) ↦ rw drops (passed_kept calls states' pruned recent left later within.1)
      ]

  -- Of any run of calls with such messages that lie within one window of the limit, at any clock
  -- readings, messages of less than `limit + most` bytes in all pass: the budget is overrun by less
  -- than one message, if the window of the topic held less than that before.
  pub bytes_rate :
      (calls : List (ℕ × ℕ)) (states : Map (ThrottleState D))
      → AllSmall calls
      → InWindow ops config calls
      → total (state_of topic states).sent_deque < limit + most
      → bytes_passed ops configs topic calls states < limit + most
  bytes_rate calls states small within h = omega (
    arith,
    bytes_window calls states small h,
    passed_kept calls states (state_of topic states).sent_deque []
        (sym (append-nil (state_of topic states).sent_deque)) tt within,
  )
