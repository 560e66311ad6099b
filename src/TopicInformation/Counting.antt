-- ===== src/TopicInformation/Counting.antt =====
-- What the statistics of a topic hold after any run of messages.
use hector_recorder.Common.{
  ℕ, ◌+◌, ◌-◌, ◌%◌, ◌^◌, ◌≤◌, ◌<◌, ◌≡◌, ◌↔◌, refl, sym, ap, ◌∙◌, zero, suc, drop, length-drop, true,
  List, [], ◌∷◌, ◌++◌, arith, length, length-append,
}
use mathlib.Core.List.{append_assoc, append-nil}
use hector_recorder.TopicInformation.{
  window_size, feed, TopicInformation, update_statistics, is_data_stale, Rolling, mean_frequency,
  bandwidth,
}

-- A message: the steady clock's reading, its stamp and its size.
pub record Sample : Type 0 where
  pub now : ℕ
  pub stamp : ℕ
  pub bytes : ℕ

unfoldable pub update_all : List Sample → TopicInformation → TopicInformation
update_all [] info = info
update_all (m ∷ ms) info = update_all ms (update_statistics m.now m.stamp m.bytes info)

abbrev pub total_bytes : List Sample → ℕ
total_bytes [] = 0
total_bytes (m ∷ ms) = m.bytes + total_bytes ms

abbrev pub sizes_of : List Sample → List ℕ
sizes_of [] = []
sizes_of (m ∷ ms) = m.bytes ∷ sizes_of ms

-- The last `n` of a list.
abbrev pub last : ℕ → List ℕ → List ℕ
last n xs = drop (length xs - n) xs

drop-append : (k : ℕ) (xs ys : List ℕ) → k ≤ length xs → drop k (xs ++ ys) ≡ drop k xs ++ ys
drop-append zero xs ys h = refl
drop-append (suc k) [] ys h = absurd (omega arith)
drop-append (suc k) (x ∷ xs) ys h = drop-append k xs ys (omega arith)

drop-nil : (k : ℕ) (xs : List ℕ) → xs ≡ [] → drop k xs ≡ []
drop-nil zero xs h = h
drop-nil (suc k) [] h = refl
drop-nil (suc k) (x ∷ xs) h = cc

drop-drop : (j k : ℕ) (xs : List ℕ) → drop j (drop k xs) ≡ drop (k + j) xs
drop-drop j zero xs = ap (λ (m : ℕ). drop m xs) (omega arith)
drop-drop j (suc k) [] = drop-nil j [] refl ∙ sym (drop-nil (suc k + j) [] refl)
drop-drop j (suc k) (x ∷ xs) =
    let e : suc (k + j) ≡ suc k + j = omega arith in
    drop-drop j k xs ∙ ap (λ (m : ℕ). drop m (x ∷ xs)) e

-- What is cut off before more is appended does not matter.
last-last : (n : ℕ) (xs ys : List ℕ) → last n (last n xs ++ ys) ≡ last n (xs ++ ys)
last-last n xs ys =
    let k = length xs - n in
    let cut : drop k (xs ++ ys) ≡ drop k xs ++ ys = drop-append k xs ys (omega arith) in
    let counts : (length (drop k xs ++ ys) - n) + k ≡ length (xs ++ ys) - n =
      omega (arith, length-append xs ys, length-append (drop k xs) ys, length-drop k xs) in
    ap (drop (length (drop k xs ++ ys) - n)) (sym cut)
    ∙ drop-drop (length (drop k xs ++ ys) - n) k (xs ++ ys)
    ∙ ap (λ (m : ℕ). drop m (xs ++ ys)) (omega (arith, counts))

sizes_step :
    (m : Sample) (info : TopicInformation)
    → (update_statistics m.now m.stamp m.bytes info).sizes
      ≡ last window_size (info.sizes ++ m.bytes ∷ [])
unfolding update_statistics feed
sizes_step m info = refl

-- After any run of messages the two counters of the topic have grown by the number of the messages
-- and by their bytes, modulo 2^64.
counts_grow :
    (ms : List Sample) (info : TopicInformation)
    → let info' = update_all ms info in
      (info'.message_count % 2 ^ 64 ≡ (info.message_count + length ms) % 2 ^ 64)
      × (info'.size % 2 ^ 64 ≡ (info.size + total_bytes ms) % 2 ^ 64)
unfolding update_all update_statistics
counts_grow [] info = omega arith
counts_grow (m ∷ ms) info =
    omega (arith, counts_grow ms (update_statistics m.now m.stamp m.bytes info))

sizes_slide :
    (ms : List Sample) (info : TopicInformation)
    → length info.sizes ≤ window_size
    → (update_all ms info).sizes ≡ last window_size (info.sizes ++ sizes_of ms)
unfolding update_all
sizes_slide [] info h =
    let e : 0 ≡ length info.sizes - window_size = omega arith in
    ap (λ (k : ℕ). drop k info.sizes) e ∙ ap (last window_size) (sym (append-nil info.sizes))
sizes_slide (m ∷ ms) info h =
    let info' = update_statistics m.now m.stamp m.bytes info in
    sizes_slide ms info' (
      rw (sizes_step m info) (
        omega (
          arith,
          length-drop (length (info.sizes ++ m.bytes ∷ []) - window_size)
              (info.sizes ++ m.bytes ∷ []),
        )))
    ∙ ap (λ (xs : List ℕ). last window_size (xs ++ sizes_of ms)) (sizes_step m info)
    ∙ last-last window_size (info.sizes ++ m.bytes ∷ []) (sizes_of ms)
    ∙ ap (last window_size) (append_assoc info.sizes (m.bytes ∷ []) (sizes_of ms))

-- After any run of messages of a topic whose window of sizes is no longer than 100, the two counters of
-- the topic have grown by the number of the messages and by their bytes, modulo 2^64, and the window
-- holds the last 100 of the sizes that it held and those of the messages, in order.
pub update_all_counts :
    (ms : List Sample) (info : TopicInformation)
    → length info.sizes ≤ 100
    → let info' = update_all ms info in
      (info'.message_count % 2 ^ 64 ≡ (info.message_count + length ms) % 2 ^ 64)
      × (info'.size % 2 ^ 64 ≡ (info.size + total_bytes ms) % 2 ^ 64)
      × (info'.sizes ≡ last 100 (info.sizes ++ sizes_of ms))
update_all_counts ms info h =
    ((counts_grow ms info).0, (counts_grow ms info).1, sizes_slide ms info h)

-- The statistics count as stale exactly from four seconds after the last message on; then, and below
-- two messages, the topic shows the frequency 0.0 and the bandwidth 0.
pub stale_shows_zero :
    {D : Type 0} (rolling : Rolling D) (now : ℕ) (info : TopicInformation)
    → ((is_data_stale now info ≡ true) ↔ (info.last_update + 4_000_000_000 ≤ now))
      × (info.last_update + 4_000_000_000 ≤ now
          → (mean_frequency rolling now info ≡ rolling.zero_rate)
            × (bandwidth rolling now info ≡ 0))
      × (info.message_count < 2
          → (mean_frequency rolling now info ≡ rolling.zero_rate)
            × (bandwidth rolling now info ≡ 0))
unfolding bandwidth
stale_shows_zero rolling now info = ground arith
