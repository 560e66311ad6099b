-- ===== src/Transfer/Chunks.antt =====
-- The output of rsync comes in chunks that end anywhere: onReadyReadStdout of
-- rqml_recorder/src/bag_transfer.cpp.
use mathlib.Core.List.{append-nil, append_assoc}
use hector_recorder.Common.{
  ℕ, true, ◌≡◌, refl, sym, ap, ◌∙◌, List, [], ◌∷◌, ◌++◌, Option, none, some, arith,
}
use hector_recorder.Transfer.{Text, Doubles, Qt, Report, BagTransfer}
use hector_recorder.Transfer.Parsing.{parse_lines}
use hector_recorder.Transfer.Process.{
  is_separator, behind, last_separator, split_lines, read_complete, on_ready_read_stdout,
}

-- UTF-8 may be decoded on each side of a separator on its own.
pub record IsDecoder (decode : List ℕ → Text) : Type 0 where
  pub of_nil : decode [] ≡ []
  pub of_separator :
      (s u : List ℕ) (c : ℕ)
      → is_separator c ≡ true
      → decode (s ++ c ∷ u) ≡ decode s ++ c ∷ decode u

-- The last separator of a text that has the separator `sep` before `s`.
abbrev after : List ℕ → ℕ → List ℕ → Option (List ℕ × ℕ × List ℕ) → Option (List ℕ × ℕ × List ℕ)
after before sep s none = some (before, sep, s)
after before sep s (some (before', sep', rest)) = some (before ++ sep ∷ before', sep', rest)

last_separator-append :
    (before s : List ℕ) (sep : ℕ)
    → is_separator sep ≡ true
    → last_separator (before ++ sep ∷ s) ≡ after before sep s (last_separator s)
unfolding last_separator
last_separator-append [] s sep h = ground arith
last_separator-append (c ∷ before) s sep h =
    rw (last_separator-append before s sep h) (ground arith)

-- What the search finds is where it says, with no separator behind it.
record Found (s before : List ℕ) (sep : ℕ) (rest : List ℕ) : Type 0 where
  splits : s ≡ before ++ sep ∷ rest
  is_sep : is_separator sep ≡ true
  last : last_separator rest ≡ none

behind_none :
    (c : ℕ) (o : Option (List ℕ × ℕ × List ℕ)) (s before : List ℕ) (sep : ℕ) (rest : List ℕ)
    → last_separator s ≡ o
    → ((before' : List ℕ) (sep' : ℕ) (rest' : List ℕ)
        → o ≡ some (before', sep', rest')
        → Found s before' sep' rest')
    → behind c o s ≡ some (before, sep, rest)
    → Found (c ∷ s) before sep rest
behind_none c none s before sep rest e ih h = record {
  splits = ground arith;
  is_sep = ground arith;
  last = ground arith;
}
behind_none c (some (b, x, r)) s before sep rest e ih h =
    let f = ih b x r refl in
    record {
      splits = ground (arith, f.splits);
      is_sep = ground (arith, f.is_sep);
      last = ground (arith, f.last);
    }

last_separator-Found :
    (s before : List ℕ) (sep : ℕ) (rest : List ℕ)
    → last_separator s ≡ some (before, sep, rest)
    → Found s before sep rest
unfolding last_separator
last_separator-Found [] before sep rest h = cc
last_separator-Found (c ∷ s) before sep rest h =
    behind_none c (last_separator s) s before sep rest refl
      (λ before' sep' rest'. last_separator-Found s before' sep' rest') h

split_lines-append :
    (line s u : Text) (c : ℕ)
    → is_separator c ≡ true
    → split_lines line (s ++ c ∷ u) ≡ split_lines line s ++ split_lines [] u
unfolding split_lines
split_lines-append [] [] u c h = ground arith
split_lines-append (e ∷ line) [] u c h = ground arith
split_lines-append line (e ∷ s) u c h =
    ground (arith, split_lines-append [] s u c, split_lines-append (line ++ e ∷ []) s u c)

abbrev pub concat : List (List ℕ) → List ℕ
concat [] = []
concat (s ∷ ss) = s ++ concat ss

module _ {D : Type 0} (d : Doubles D) (qt : Qt D) where
  parse_lines-append :
      (xs ys : List Text) (r : Report D)
      → parse_lines d qt (xs ++ ys) r ≡ parse_lines d qt ys (parse_lines d qt xs r)
  unfolding parse_lines
  parse_lines-append [] ys r = refl
  parse_lines-append (x ∷ xs) ys r = parse_lines-append xs ys _

  pub read_all : List (List ℕ) → BagTransfer D → BagTransfer D
  read_all [] t = t
  read_all (output ∷ outputs) t = read_all outputs (on_ready_read_stdout d qt output t)

  module _ (decoder : IsDecoder qt.from_utf8) where
    -- The lines of a text that ends in a separator.
    abbrev lines_of : List ℕ → ℕ → List Text
    lines_of before sep = split_lines [] (qt.from_utf8 (before ++ sep ∷ []))

    lines_of-append :
        (before before' : List ℕ) (sep sep' : ℕ)
        → is_separator sep ≡ true
        → lines_of (before ++ sep ∷ before') sep' ≡ lines_of before sep ++ lines_of before' sep'
    unfolding split_lines
    lines_of-append before before' sep sep' h =
        ap (split_lines []) (
          ap qt.from_utf8 (append_assoc before (sep ∷ before') (sep' ∷ []))
          ∙ decoder.of_separator before (before' ++ sep' ∷ []) sep h)
        ∙ split_lines-append [] (qt.from_utf8 before) (qt.from_utf8 (before' ++ sep' ∷ [])) sep h
        ∙ ap (λ (xs : List Text). xs ++ split_lines [] (qt.from_utf8 (before' ++ sep' ∷ [])))
            (sym (
              ap (split_lines []) (
                decoder.of_separator before [] sep h
                ∙ ap (λ (x : Text). qt.from_utf8 before ++ sep ∷ x) decoder.of_nil)
              ∙ split_lines-append [] (qt.from_utf8 before) [] sep h
              ∙ append-nil (split_lines [] (qt.from_utf8 before))))

    read_behind :
        (before rest more : List ℕ) (sep : ℕ) (buffer : List ℕ) (t : BagTransfer D)
        → is_separator sep ≡ true
        → (o : Option (List ℕ × ℕ × List ℕ))
        → read_complete d qt o
            (rest ++ more)
            (read_complete d qt (some (before, sep, rest)) buffer t)
          ≡ read_complete d qt (after before sep (rest ++ more) o) (buffer ++ more) t
    read_behind before rest more sep buffer t h none = refl
    read_behind before rest more sep buffer t h (some (before', sep', rest')) =
        ap (λ (r : Report D). record t { read_buffer = rest'; report = r })
          (sym (
            ap (λ (lines : List Text). parse_lines d qt lines t.report)
              (lines_of-append before before' sep sep' h)
            ∙ parse_lines-append (lines_of before sep) (lines_of before' sep') t.report))

    overwrite :
        (buffer s : List ℕ) (t : BagTransfer D) (o : Option (List ℕ × ℕ × List ℕ))
        → read_complete d qt o s (record t { read_buffer = buffer }) ≡ read_complete d qt o s t
    overwrite buffer s t none = refl
    overwrite buffer s t (some (before, sep, rest)) = refl

    read_after :
        (buffer more : List ℕ) (t : BagTransfer D) (o : Option (List ℕ × ℕ × List ℕ))
        → last_separator buffer ≡ o
        → on_ready_read_stdout d qt more (read_complete d qt o buffer t)
          ≡ read_complete d qt (last_separator (buffer ++ more)) (buffer ++ more) t
    unfolding on_ready_read_stdout
    read_after buffer more t none h =
        overwrite buffer (buffer ++ more) t (last_separator (buffer ++ more))
    read_after buffer more t (some (before, sep, rest)) h =
        let f = last_separator-Found buffer before sep rest h in
        read_behind before rest more sep buffer t f.is_sep (last_separator (rest ++ more))
        ∙ ap (λ (o : Option (List ℕ × ℕ × List ℕ)). read_complete d qt o (buffer ++ more) t)
            (sym (
              ap last_separator
                (ap (λ (x : List ℕ). x ++ more) f.splits ∙ append_assoc before (sep ∷ rest) more)
              ∙ last_separator-append before (rest ++ more) sep f.is_sep))

    read_twice :
        (output more : List ℕ) (t : BagTransfer D)
        → on_ready_read_stdout d qt more (on_ready_read_stdout d qt output t)
          ≡ on_ready_read_stdout d qt (output ++ more) t
    unfolding on_ready_read_stdout
    read_twice output more t =
        let buffer = t.read_buffer ++ output in
        read_after buffer more t (last_separator buffer) refl
        ∙ ap (λ (x : List ℕ). read_complete d qt (last_separator x) x t)
            (append_assoc t.read_buffer output more)

    read_nothing :
        (t : BagTransfer D)
        → last_separator t.read_buffer ≡ none
        → on_ready_read_stdout d qt [] t ≡ t
    unfolding on_ready_read_stdout
    read_nothing t h =
        ap (λ (x : List ℕ). read_complete d qt (last_separator x) x t) (append-nil t.read_buffer)
        ∙ ap (λ (o : Option (List ℕ × ℕ × List ℕ)). read_complete d qt o t.read_buffer t) h

    read_complete_rest :
        (buffer : List ℕ) (t : BagTransfer D) (o : Option (List ℕ × ℕ × List ℕ))
        → last_separator buffer ≡ o
        → last_separator (read_complete d qt o buffer t).read_buffer ≡ none
    read_complete_rest buffer t none h = h
    read_complete_rest buffer t (some (before, sep, rest)) h =
        (last_separator-Found buffer before sep rest h).last

    read_rest :
        (output : List ℕ) (t : BagTransfer D)
        → last_separator (on_ready_read_stdout d qt output t).read_buffer ≡ none
    unfolding on_ready_read_stdout
    read_rest output t =
        read_complete_rest (t.read_buffer ++ output) t (last_separator (t.read_buffer ++ output))
          refl

    -- However the output of rsync is cut into chunks, reading them one by one leaves the transfer just
    -- as reading all of it at once does, if the buffer holds no complete line to begin with.
    pub read_chunks :
        (outputs : List (List ℕ)) (t : BagTransfer D)
        → last_separator t.read_buffer ≡ none
        → read_all outputs t ≡ on_ready_read_stdout d qt (concat outputs) t
    unfolding read_all
    read_chunks [] t h = sym (read_nothing t h)
    read_chunks (output ∷ outputs) t h =
        read_chunks outputs (on_ready_read_stdout d qt output t) (read_rest output t)
        ∙ read_twice output (concat outputs) t
