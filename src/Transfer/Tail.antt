-- ===== src/Transfer/Tail.antt =====
-- The last lines of the output, kept for the report of a failure: parseLine of
-- rqml_recorder/src/bag_transfer.cpp.
use mathlib.Core.List.{append-nil, append_assoc}
use hector_recorder.Common.{
  suc, Bool-cases, inl, inr, ltb, ℕ, ◌-◌, ◌≤◌, Bool, true, ◌≡◌, refl, sym, ap, ◌∙◌, List, [], ◌∷◌,
  ◌++◌, Option, none, some, arith, null, length, drop, length-append, if◌then◌else◌,
}
use hector_recorder.Transfer.{Text, Doubles, Qt, Report}
use hector_recorder.Transfer.Parsing.{keep_last, parse_line, parse_lines, with_progress, with_files}

-- The last `n` elements.
abbrev pub last : ℕ → List Text → List Text
last n xs = drop (length xs - n) xs

drop-suc : (n k : ℕ) (x : Text) (xs : List Text) → n ≡ suc k → drop n (x ∷ xs) ≡ drop k xs
drop-suc n k x xs e = rw e refl

drop_zero : (n : ℕ) (xs : List Text) → n ≡ 0 → drop n xs ≡ xs
drop_zero n xs e = rw e refl

keep_last-last : (xs : List Text) → keep_last xs ≡ last 20 xs
unfolding keep_last
keep_last-last [] = refl
keep_last-last (x ∷ xs) = elim (Bool-cases (ltb 20 (length (x ∷ xs)))) [
  | inl more ↦ rw more (
      keep_last-last xs
      ∙ sym (drop-suc (suc (length xs) - 20) (length xs - 20) x xs (ground arith)))
  | inr fits ↦ rw fits (sym (drop_zero (suc (length xs) - 20) (x ∷ xs) (ground arith)))
]

keep_last-append : (xs ys : List Text) → keep_last (keep_last xs ++ ys) ≡ keep_last (xs ++ ys)
unfolding keep_last
keep_last-append [] ys = refl
keep_last-append (x ∷ xs) ys = elim (Bool-cases (ltb 20 (length (x ∷ xs)))) [
  | inl more ↦ rw more (
      keep_last-append xs ys
      ∙ ap (λ (b : Bool). if b then keep_last (xs ++ ys) else x ∷ (xs ++ ys))
          (sym (longer xs ys more)))
  | inr fits ↦ rw fits refl
]
  where
    longer :
        (xs ys : List Text)
        → ltb 20 (suc (length xs)) ≡ true
        → ltb 20 (suc (length (xs ++ ys))) ≡ true
    longer xs ys h = ground (arith, length-append xs ys)

keep_last_fits : (xs : List Text) → length xs ≤ 20 → keep_last xs ≡ xs
unfolding keep_last
keep_last_fits [] h = refl
keep_last_fits (x ∷ xs) h = ground arith

length-keep_last : (xs : List Text) → length (keep_last xs) ≤ 20
unfolding keep_last
length-keep_last [] = omega arith
length-keep_last (x ∷ xs) = ground (arith, length-keep_last xs)

-- The lines that are not empty once trimmed.
abbrev pub kept : (Text → Text) → List Text → List Text
kept trimmed [] = []
kept trimmed (line ∷ lines) =
    if null (trimmed line) then kept trimmed lines else trimmed line ∷ kept trimmed lines

module _ {D : Type 0} (d : Doubles D) (qt : Qt D) where
  with_files_output :
      (o : Option (Text × Text)) (r : Report D)
      → (with_files d qt o r).recent_output ≡ r.recent_output
  with_files_output none r = refl
  with_files_output (some c) r = refl

  with_progress_output :
      (o : Option (Text × Text × Text)) (r : Report D)
      → (with_progress d qt o r).recent_output ≡ r.recent_output
  with_progress_output none r = refl
  with_progress_output (some c) r = refl

  parse_line_output :
      (line : Text) (r : Report D)
      → (parse_line d qt line r).recent_output
        ≡ (if null line then r.recent_output else keep_last (r.recent_output ++ line ∷ []))
  unfolding parse_line
  parse_line_output [] r = refl
  parse_line_output (c ∷ s) r =
      let r' = record r { recent_output = keep_last (r.recent_output ++ (c ∷ s) ∷ []) } in
      with_files_output (qt.chk_match (c ∷ s)) (with_progress d qt (qt.progress_match (c ∷ s)) r')
      ∙ with_progress_output (qt.progress_match (c ∷ s)) r'

  parse_line_fits :
      (c : ℕ) (s : Text) (r : Report D) → length (parse_line d qt (c ∷ s) r).recent_output ≤ 20
  parse_line_fits c s r =
      rw (parse_line_output (c ∷ s) r) (length-keep_last (r.recent_output ++ (c ∷ s) ∷ []))

  keep_step :
      (line : Text) (lines : List Text) (r : Report D)
      → length r.recent_output ≤ 20
      → ((r' : Report D)
          → length r'.recent_output ≤ 20
          → (parse_lines d qt lines r').recent_output
            ≡ keep_last (r'.recent_output ++ kept qt.trimmed lines))
      → (parse_lines d qt lines (parse_line d qt line r)).recent_output
        ≡ keep_last (
            r.recent_output
            ++ (if null line then kept qt.trimmed lines else line ∷ kept qt.trimmed lines))
  unfolding parse_line
  keep_step [] lines r h ih = ih r h
  keep_step (c ∷ s) lines r h ih =
      let line = c ∷ s in
      let rest = kept qt.trimmed lines in
      ih (parse_line d qt line r) (parse_line_fits c s r)
      ∙ ap (λ (xs : List Text). keep_last (xs ++ rest)) (parse_line_output line r)
      ∙ keep_last-append (r.recent_output ++ line ∷ []) rest
      ∙ ap keep_last (append_assoc r.recent_output (line ∷ []) rest)

  parse_lines_keep :
      (lines : List Text) (r : Report D)
      → length r.recent_output ≤ 20
      → (parse_lines d qt lines r).recent_output
        ≡ keep_last (r.recent_output ++ kept qt.trimmed lines)
  unfolding parse_lines
  parse_lines_keep [] r h = sym (rw append-nil (keep_last_fits r.recent_output h))
  parse_lines_keep (line ∷ lines) r h =
      keep_step (qt.trimmed line) lines r h (parse_lines_keep lines)

  -- However many lines are parsed, the output that is kept for the report of a failure is the last 20
  -- of the lines that are not empty once trimmed, those that were kept before included.
  pub parse_lines_tail :
      (lines : List Text) (r : Report D)
      → length r.recent_output ≤ 20
      → (parse_lines d qt lines r).recent_output
        ≡ last 20 (r.recent_output ++ kept qt.trimmed lines)
  parse_lines_tail lines r h =
      parse_lines_keep lines r h ∙ keep_last-last (r.recent_output ++ kept qt.trimmed lines)
