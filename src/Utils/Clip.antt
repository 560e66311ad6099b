-- ===== src/Utils/Clip.antt =====
-- clipString and ensureLeadingSlash: a text is cut to a column, with "..." for what is left out, and names
-- get a leading slash. A text is the list of its
-- bytes, and the width is not negative.
use hector_recorder.Common.{
  ℕ, zero, suc, ◌+◌, ◌-◌, ◌<◌, ◌≤◌, Bool, true, false, ◌≡◌, refl, List, [], ◌∷◌, ◌++◌, Option, none,
  some, ◌⊎◌, inl, inr, Result, ok, throw, leb, ltb, ◌==◌, if◌then◌else◌, if_cases, arith, length,
  take, drop, length-append, length-take, length-drop,
}

-- The position of the last '/', from the position of the last one behind a byte.
abbrev slash_behind : ℕ → Option ℕ → Option ℕ
slash_behind c none = if c == b'/' then some 0 else none
slash_behind c (some n) = some (suc n)

unfoldable pub last_slash : List ℕ → Option ℕ
last_slash [] = none
last_slash (c ∷ s) = slash_behind c (last_slash s)

abbrev dots : List ℕ
dots = b'.' ∷ b'.' ∷ b'.' ∷ []

-- A negative length is a large one as it becomes unsigned: the whole text is kept.
unfoldable pub clip_end : ℕ → List ℕ → List ℕ
clip_end max_length str = (if ltb max_length 3 then str else take (max_length - 3) str) ++ dots

-- A start behind the end of the text throws.
unfoldable pub clip_suffix : ℕ → List ℕ → Result (List ℕ)
clip_suffix max_length suffix =
    if ltb max_length 3
    then throw "out_of_range"
    else ok (dots ++ drop (length suffix - (max_length - 3)) suffix)

unfoldable pub clip_middle : ℕ → List ℕ → List ℕ → Result (List ℕ)
unfolding clip_suffix
clip_middle max_length str suffix =
    if leb max_length (length suffix + 3)
    then clip_suffix max_length suffix
    else ok (take (max_length - length suffix - 3) str ++ dots ++ suffix)

unfoldable pub clip_long : ℕ → List ℕ → Option ℕ → Result (List ℕ)
unfolding clip_end clip_middle
clip_long max_length str none = ok (clip_end max_length str)
clip_long max_length str (some zero) = ok (clip_end max_length str)
clip_long max_length str (some (suc n)) = clip_middle max_length str (drop (suc n) str)

unfoldable pub clip_string : ℕ → List ℕ → Result (List ℕ)
unfolding clip_long last_slash
clip_string max_length str =
    if leb (length str) max_length then ok str else clip_long max_length str (last_slash str)

-- `find( "/" ) != 0`.
abbrev leads : List ℕ → Bool
leads [] = false
leads (c ∷ s) = c == b'/'

abbrev with_leading_slash : List ℕ → List ℕ
with_leading_slash s = if leads s then s else b'/' ∷ s

unfoldable ensure_leading_slash : List (List ℕ) → List (List ℕ)
ensure_leading_slash [] = []
ensure_leading_slash (s ∷ vector) = with_leading_slash s ∷ ensure_leading_slash vector

leads-with_leading_slash : (s : List ℕ) → leads (with_leading_slash s) ≡ true
leads-with_leading_slash s =
    if_cases (λ t. leads t ≡ true) (leads s) s (b'/' ∷ s) (λ e. e) (λ e. refl)

with_leading_slash_again :
    (s : List ℕ) → with_leading_slash (with_leading_slash s) ≡ with_leading_slash s
with_leading_slash_again s = rw (leads-with_leading_slash s) refl

-- Names that have a leading slash are left as they are: doing it twice is doing it once.
ensure_leading_slash_again :
    (vector : List (List ℕ))
    → ensure_leading_slash (ensure_leading_slash vector) ≡ ensure_leading_slash vector
unfolding ensure_leading_slash
ensure_leading_slash_again [] = refl
ensure_leading_slash_again (s ∷ vector) =
    rw (with_leading_slash_again s, ensure_leading_slash_again vector) refl

length-clip_end :
    (max_length : ℕ) (str : List ℕ)
    → 3 ≤ max_length
    → max_length < length str
    → length (clip_end max_length str) ≡ max_length
unfolding clip_end
length-clip_end max_length str h k =
    ground (arith, length-append (take (max_length - 3) str) dots, length-take (max_length - 3) str)

abbrev Fits : ℕ → Result (List ℕ) → Type 0
Fits max_length r = (t : List ℕ) × (r ≡ ok t) × (length t ≡ max_length)

clip_suffix-Fits :
    (max_length : ℕ) (suffix : List ℕ)
    → 3 ≤ max_length
    → max_length ≤ length suffix + 3
    → Fits max_length (clip_suffix max_length suffix)
unfolding clip_suffix
clip_suffix-Fits max_length suffix h k = (
  dots ++ drop (length suffix - (max_length - 3)) suffix,
  ground arith,
  ground (arith, length-drop (length suffix - (max_length - 3)) suffix),
)

clip_middle-Fits :
    (max_length : ℕ) (str suffix : List ℕ)
    → 3 ≤ max_length
    → max_length < length str
    → Fits max_length (clip_middle max_length str suffix)
unfolding clip_middle
clip_middle-Fits max_length str suffix h k =
    if_cases (Fits max_length) (leb max_length (length suffix + 3)) (clip_suffix max_length suffix)
      (ok (take (max_length - length suffix - 3) str ++ dots ++ suffix))
      (λ e. clip_suffix-Fits max_length suffix h (ground arith))
      (λ e. (
        take (max_length - length suffix - 3) str ++ dots ++ suffix,
        refl,
        ground (
          arith,
          length-append (take (max_length - length suffix - 3) str ++ dots) suffix,
          length-append (take (max_length - length suffix - 3) str) dots,
          length-take (max_length - length suffix - 3) str,
        ),
      ))

clip_long-Fits :
    (max_length : ℕ) (str : List ℕ) (slash : Option ℕ)
    → 3 ≤ max_length
    → max_length < length str
    → Fits max_length (clip_long max_length str slash)
unfolding clip_long
clip_long-Fits max_length str none h k =
    (clip_end max_length str, refl, length-clip_end max_length str h k)
clip_long-Fits max_length str (some zero) h k =
    (clip_end max_length str, refl, length-clip_end max_length str h k)
clip_long-Fits max_length str (some (suc n)) h k =
    clip_middle-Fits max_length str (drop (suc n) str) h k

-- A text is shown in a column of at least three characters whatever it holds: as it is if it fits, and
-- otherwise as a text that fills the column.
pub clip_string_fits :
    (max_length : ℕ) (str : List ℕ)
    → 3 ≤ max_length
    → (t : List ℕ) × (clip_string max_length str ≡ ok t)
      × (((length str ≤ max_length) × (t ≡ str))
          ⊎ ((max_length < length str) × (length t ≡ max_length)))
unfolding clip_string
clip_string_fits max_length str h =
    if_cases
      (λ r.
        (t : List ℕ) × (r ≡ ok t)
        × (((length str ≤ max_length) × (t ≡ str))
            ⊎ ((max_length < length str) × (length t ≡ max_length))))
      (leb (length str) max_length) (ok str) (clip_long max_length str (last_slash str))
      (λ e. (str, refl, inl (ground arith, refl)))
      (λ e.
        let long : max_length < length str = ground arith in
        let (t, shown, fills) = clip_long-Fits max_length str (last_slash str) h long in
        (t, shown, inr (long, fills)))
