-- ===== src/Recorder/Log.antt =====
-- What the calls of the rosbag2 writer say: which topics the bag has, and how often each was written.
use hector_recorder.Common.{
  ℕ, ◌+◌, String, Bool, true, false, not, ◌&&◌, ◌||◌, ◌≡◌, refl, List, [], ◌∷◌, ◌++◌, arith, str_eq,
  if◌then◌else◌,
}
use hector_recorder.Recorder.{
  WriterCall, opened, topic_created, topic_removed, written, split_asked, closed,
}

-- The topics that the open bag has.
abbrev pub learn : WriterCall → (String → Bool) → String → Bool
learn (opened uri format) known t = known t
learn (topic_created topic type format profiles hash) known t = str_eq topic t || known t
learn (topic_removed topic) known t = if str_eq topic t then false else known t
learn (written topic type size received source) known t = known t
learn split_asked known t = known t
learn closed known t = false

-- A message may only be written to a topic that the bag has.
abbrev pub allowed : WriterCall → (String → Bool) → Bool
allowed (written topic type size received source) known = known topic
allowed (opened uri format) known = true
allowed (topic_created topic type format profiles hash) known = true
allowed (topic_removed topic) known = true
allowed split_asked known = true
allowed closed known = true

unfoldable pub known_after : (String → Bool) → List WriterCall → String → Bool
known_after known [] = known
known_after known (c ∷ cs) = known_after (learn c known) cs

unfoldable pub valid_log : (String → Bool) → List WriterCall → Bool
valid_log known [] = true
valid_log known (c ∷ cs) = allowed c known && valid_log (learn c known) cs

-- Whether the writer has a bag open, and what it takes only then.
abbrev pub opens : WriterCall → Bool → Bool
opens (opened uri format) b = true
opens closed b = false
opens _ b = b

abbrev pub needs_open : WriterCall → Bool
needs_open (topic_created topic type format profiles hash) = true
needs_open (written topic type size received source) = true
needs_open _ = false

unfoldable pub is_open_after : Bool → List WriterCall → Bool
is_open_after b [] = b
is_open_after b (c ∷ cs) = is_open_after (opens c b) cs

unfoldable pub only_open : Bool → List WriterCall → Bool
only_open b [] = true
only_open b (c ∷ cs) = (not (needs_open c) || b) && only_open (opens c b) cs

abbrev pub is_open : List WriterCall → Bool
is_open cs = is_open_after false cs

abbrev pub writes : String → WriterCall → ℕ
writes t (written topic type size received source) = if str_eq topic t then 1 else 0
writes t (opened uri format) = 0
writes t (topic_created topic type format profiles hash) = 0
writes t (topic_removed topic) = 0
writes t split_asked = 0
writes t closed = 0

unfoldable pub count_written : String → List WriterCall → ℕ
count_written t [] = 0
count_written t (c ∷ cs) = writes t c + count_written t cs

abbrev pub no_topics : String → Bool
no_topics t = false

pub is_open_after-append :
    (b : Bool) (cs : List WriterCall) (c : WriterCall)
    → is_open_after b (cs ++ c ∷ []) ≡ opens c (is_open_after b cs)
unfolding is_open_after
is_open_after-append b [] c = refl
is_open_after-append b (d ∷ cs) c = is_open_after-append (opens d b) cs c

pub only_open-append :
    (b : Bool) (cs : List WriterCall) (c : WriterCall)
    → only_open b (cs ++ c ∷ []) ≡ (only_open b cs && (not (needs_open c) || is_open_after b cs))
unfolding only_open is_open_after
only_open-append b [] c = ground arith
only_open-append b (d ∷ cs) c = ground (arith, only_open-append (opens d b) cs c)

pub known_after-append :
    (known : String → Bool) (cs : List WriterCall) (c : WriterCall) (t : String)
    → known_after known (cs ++ c ∷ []) t ≡ learn c (known_after known cs) t
unfolding known_after
known_after-append known [] c t = refl
known_after-append known (b ∷ cs) c t = known_after-append (learn b known) cs c t

pub valid_log-append :
    (known : String → Bool) (cs : List WriterCall) (c : WriterCall)
    → valid_log known (cs ++ c ∷ []) ≡ (valid_log known cs && allowed c (known_after known cs))
unfolding known_after valid_log
valid_log-append known [] c = ground arith
valid_log-append known (b ∷ cs) c = ground (arith, valid_log-append (learn b known) cs c)

pub count_written-append :
    (t : String) (cs : List WriterCall) (c : WriterCall)
    → count_written t (cs ++ c ∷ []) ≡ count_written t cs + writes t c
unfolding count_written
count_written-append t [] c = omega arith
count_written-append t (b ∷ cs) c = omega (arith, count_written-append t cs c)
