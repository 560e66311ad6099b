-- ===== src/TopicInformation/Tests.antt =====
-- The statistics of a topic at concrete messages.
use hector_recorder.Common.{ℕ, ◌%◌, ◌^◌, ◌≤◌, ◌<◌, ◌≡◌, ◌↔◌, refl, true, List, [], ◌∷◌, pos, arith}
use hector_recorder.TopicInformation.{
  TopicInformation, new_information, update_statistics, is_data_stale, Rolling, mean_frequency,
  bandwidth,
}
use hector_recorder.TopicInformation.Counting.{
  Sample, update_all, update_all_counts, stale_shows_zero,
}

abbrev samples : List Sample
samples =
    (record { now = 11; stamp = 10; bytes = 100 })
    ∷ (record { now = 23; stamp = 20; bytes = 50 })
    ∷ (record { now = 36; stamp = 35; bytes = 70 })
    ∷ []

-- Doubles are whole numbers here.
abbrev plain : Rolling ℕ
plain = record {
  zero_rate = 0;
  rate_of = λ z. 7;
  mean_interval = λ xs. pos 0;
  bytes_per_second = λ xs f. f;
}

abbrev first : TopicInformation
first = record new_information { last_msg_stamp = 5; message_count = 1; size = 40; sizes = 40 ∷ [] }

first_counts : (update_all samples first).message_count ≡ 4
unfolding update_all update_statistics
first_counts = refl

update_all_counts_example :
    let info' = update_all samples first in
    (info'.message_count % 2 ^ 64 ≡ 4)
    × (info'.size % 2 ^ 64 ≡ 260)
    × (info'.sizes ≡ 40 ∷ 100 ∷ 50 ∷ 70 ∷ [])
update_all_counts_example = update_all_counts samples first (omega arith)

stale_shows_zero_example :
    ((is_data_stale 5_000_000_000 first ≡ true) ↔ (4_000_000_000 ≤ 5_000_000_000))
    × (4_000_000_000 ≤ 5_000_000_000
        → (mean_frequency plain 5_000_000_000 first ≡ 0)
          × (bandwidth plain 5_000_000_000 first ≡ 0))
    × (1 < 2
        → (mean_frequency plain 5_000_000_000 first ≡ 0)
          × (bandwidth plain 5_000_000_000 first ≡ 0))
stale_shows_zero_example = stale_shows_zero plain 5_000_000_000 first
