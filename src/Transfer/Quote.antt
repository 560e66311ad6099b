-- ===== src/Transfer/Quote.antt =====
-- shellQuote and buildCommandString of rqml_recorder/src/bag_transfer.cpp, and how a POSIX shell reads
-- what they build.
use hector_recorder.Common.{
  ℕ, Bool, true, false, not, ◌&&◌, ◌||◌, ◌≡◌, refl, sym, ap, ◌∙◌, List, [], ◌∷◌, ◌++◌, Option, none,
  some, leb, ◌==◌, arith, if◌then◌else◌, null, All,
}
use mathlib.Core.List.{append-nil, append_assoc}
use hector_recorder.Transfer.{Text}

-- [A-Za-z0-9_@%+=:,./-]
unfoldable pub is_safe : ℕ → Bool
is_safe c =
    leb b'A' c && leb c b'Z'
    || leb b'a' c && leb c b'z'
    || leb b'0' c && leb c b'9'
    || c == b'_'
    || c == b'@'
    || c == b'%'
    || c == b'+'
    || c == b'='
    || c == b':'
    || c == b','
    || c == b'.'
    || c == b'/'
    || c == b'-'

-- What follows the first character: `$` matches at the end, and before a line feed at the end.
unfoldable pub safe_tail : Text → Bool
unfolding is_safe
safe_tail [] = true
safe_tail (c ∷ []) = is_safe c || c == b'\n'
safe_tail (c ∷ (d ∷ s)) = is_safe c && safe_tail (d ∷ s)

-- safeRe.match(arg).hasMatch()
unfoldable pub safe_match : Text → Bool
unfolding is_safe safe_tail
safe_match [] = false
safe_match (c ∷ s) = is_safe c && safe_tail s

-- arg.replace("'", "'\\''")
unfoldable pub escape : Text → Text
escape [] = []
escape (c ∷ s) = if c == b'\'' then b'\'' ∷ b'\\' ∷ b'\'' ∷ b'\'' ∷ escape s else c ∷ escape s

unfoldable pub shell_quote : Text → Text
unfolding safe_match escape
shell_quote arg =
    if not (null arg) && safe_match arg then arg else b'\'' ∷ (escape arg ++ b'\'' ∷ [])

-- parts.join(' ')
unfoldable pub join : Text → List Text → Text
join sep [] = []
join sep (part ∷ []) = part
join sep (part ∷ (next ∷ parts)) = part ++ (sep ++ join sep (next ∷ parts))

unfoldable pub quote_all : List Text → List Text
unfolding shell_quote
quote_all [] = []
quote_all (arg ∷ args) = shell_quote arg ∷ quote_all args

unfoldable pub build_command_string : Text → List Text → Text
unfolding quote_all join
build_command_string program args = join (b' ' ∷ []) (shell_quote program ∷ quote_all args)

-- A POSIX shell on a simple command: between words, in a word, inside single quotes, and after a
-- backslash. `none`: a character that means more to it, or an end inside quotes.
pub data Mode : Type 0 where
  between in_word quoted escaped : Mode

unfoldable pub shell_words : Mode → Text → Text → Option (List Text)
unfolding is_safe
shell_words between word [] = some []
shell_words in_word word [] = some (word ∷ [])
shell_words quoted word [] = none
shell_words escaped word [] = none
shell_words between word (c ∷ s) =
    let blank = shell_words between [] s in
    let quote = shell_words quoted [] s in
    let escape = shell_words escaped [] s in
    let letter = shell_words in_word (c ∷ []) s in
    if c == b' '
    then blank
    else if c == b'\''
    then quote
    else if c == b'\\'
    then escape
    else if is_safe c
    then letter
    else none
shell_words in_word word (c ∷ s) =
    let blank = shell_words between [] s in
    let quote = shell_words quoted word s in
    let escape = shell_words escaped word s in
    let letter = shell_words in_word (word ++ c ∷ []) s in
    if c == b' '
    then elim blank [ none ↦ none | some words ↦ some (word ∷ words) ]
    else if c == b'\''
    then quote
    else if c == b'\\'
    then escape
    else if is_safe c
    then letter
    else none
shell_words quoted word (c ∷ s) =
    let close = shell_words in_word word s in
    let letter = shell_words quoted (word ++ c ∷ []) s in if c == b'\'' then close else letter
shell_words escaped word (c ∷ s) = shell_words in_word (word ++ c ∷ []) s

abbrev pub ends_in_line_feed : Text → Bool
ends_in_line_feed [] = false
ends_in_line_feed (c ∷ []) = c == b'\n'
ends_in_line_feed (c ∷ (d ∷ s)) = ends_in_line_feed (d ∷ s)

abbrev all_safe : Text → Bool
all_safe [] = true
all_safe (c ∷ s) = is_safe c && all_safe s

shell-escape :
    (arg word rest : Text)
    → shell_words quoted word (escape arg ++ b'\'' ∷ rest) ≡ shell_words in_word (word ++ arg) rest
unfolding shell_words escape
shell-escape [] word rest = rw append-nil refl
shell-escape (c ∷ s) word rest = ground (
  arith,
  shell-escape s (word ++ c ∷ []) rest,
  shell-escape s (word ++ b'\'' ∷ []) rest,
  append_assoc word (c ∷ []) s,
  append_assoc word (b'\'' ∷ []) s,
)

shell-safe :
    (s word rest : Text)
    → all_safe s ≡ true
    → shell_words in_word word (s ++ rest) ≡ shell_words in_word (word ++ s) rest
unfolding shell_words
shell-safe [] word rest h = rw append-nil refl
shell-safe (c ∷ s) word rest h =
    ground (arith, shell-safe s (word ++ c ∷ []) rest, append_assoc word (c ∷ []) s)

safe_tail_all : (s : Text) → safe_tail s ≡ true → ends_in_line_feed s ≡ false → all_safe s ≡ true
unfolding safe_tail
safe_tail_all [] h k = refl
safe_tail_all (c ∷ []) h k = ground arith
safe_tail_all (c ∷ (d ∷ s)) h k = ground (arith, safe_tail_all (d ∷ s))

safe_match_all : (s : Text) → safe_match s ≡ true → ends_in_line_feed s ≡ false → all_safe s ≡ true
unfolding safe_match safe_tail
safe_match_all [] h k = refl
safe_match_all (c ∷ []) h k = ground arith
safe_match_all (c ∷ (d ∷ s)) h k = ground (arith, safe_tail_all (d ∷ s))

-- From between words, a quoted argument is read as one word.
shell_safe_word :
    (c : ℕ) (s rest : Text)
    → all_safe (c ∷ s) ≡ true
    → shell_words between [] ((c ∷ s) ++ rest) ≡ shell_words in_word (c ∷ s) rest
unfolding shell_words
shell_safe_word c s rest h = ground (arith, shell-safe s (c ∷ []) rest)

shell_quoted_word :
    (arg rest : Text)
    → shell_words between [] ((b'\'' ∷ (escape arg ++ b'\'' ∷ [])) ++ rest)
      ≡ shell_words in_word arg rest
unfolding shell_words
shell_quoted_word arg rest =
    ap (shell_words quoted []) (append_assoc (escape arg) (b'\'' ∷ []) rest)
    ∙ shell-escape arg [] rest

shell-shell_quote :
    (arg rest : Text)
    → ends_in_line_feed arg ≡ false
    → shell_words between [] (shell_quote arg ++ rest) ≡ shell_words in_word arg rest
unfolding shell_quote
shell-shell_quote [] rest h = shell_quoted_word [] rest
shell-shell_quote (c ∷ s) rest h =
    ground (arith, shell_quoted_word (c ∷ s) rest, shell_safe_word c s rest, safe_match_all (c ∷ s))

-- No argument ends in a line feed.
abbrev pub IsPlain : List Text → Type 0
IsPlain args = All (λ arg. ends_in_line_feed arg ≡ false) args

shell-join :
    (arg : Text) (args : List Text)
    → IsPlain (arg ∷ args)
    → shell_words between [] (join (b' ' ∷ []) (shell_quote arg ∷ quote_all args))
      ≡ some (arg ∷ args)
unfolding quote_all join shell_words
shell-join arg [] h =
    ap (shell_words between []) (sym (append-nil (shell_quote arg))) ∙ shell-shell_quote arg [] h.0
shell-join arg (next ∷ args) h =
    let rest = join (b' ' ∷ []) (shell_quote next ∷ quote_all args) in
    shell-shell_quote arg (b' ' ∷ rest) h.0
    ∙ (let ih : shell_words between [] rest ≡ some (next ∷ args) = shell-join next args h.1 in
        rw ih refl)

-- A POSIX shell reads the command that is shown after a failed transfer back as the program and its
-- arguments, whatever they hold, quotes, blanks and empty arguments included, if none of them ends in
-- a line feed.
pub shell-build_command_string :
    (program : Text) (args : List Text)
    → IsPlain (program ∷ args)
    → shell_words between [] (build_command_string program args) ≡ some (program ∷ args)
unfolding build_command_string
shell-build_command_string program args h = shell-join program args h
