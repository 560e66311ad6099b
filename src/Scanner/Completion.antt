-- ===== src/Scanner/Completion.antt =====
-- completePath of rqml_recorder/src/local_bag_scanner.cpp.
use Prim.Native.Char.{Char, code}
use mathlib.Core.Option.{some_inj}
use text.Mathlib.TextLemmas.{nil-append, cons-append}
use text.Mathlib.TextEquality.{Char-path}
use hector_recorder.Common.{
  ℕ, zero, suc, ◌≤◌, String, ◌<>◌, Bool, true, false, not, ◌&&◌, ◌≡◌, ◌≢◌, ap, sym, ◌∙◌, refl, ◌⊎◌,
  inl, inr, List, [], ◌∷◌, Option, none, some, is_empty, length, length-take, take, arith, if_cases,
  if_both, ==_iff, All, ◌==◌, if◌then◌else◌,
}
use hector_recorder.Engine.Starting.{expand_home, ends_in, starts_with}
use hector_recorder.Scanner.{Child, Files}

-- The rest of a text behind a prefix.
unfoldable pub without_prefix : String → String → Option String
without_prefix String.[] s = some s
without_prefix (String.◌∷◌ c p) String.[] = none
without_prefix (String.◌∷◌ c p) (String.◌∷◌ e s) =
    let rest = without_prefix p s in if code c == code e then rest else none

abbrev pub is_some : Option String → Bool
is_some none = false
is_some (some s) = true

-- The directory to look in, and the beginning of the name.
abbrev looked_up : Files → String → String × String
looked_up files input =
    if is_empty input
    then ("/", "")
    else if ends_in b'/' input
    then (input, "")
    else (files.parent_path input, files.filename input)

abbrev home_or_empty : Option String → String
home_or_empty none = ""
home_or_empty (some home) = home

abbrev tilde_for : Option String → String → String
tilde_for none full_path = full_path
tilde_for (some rest) full_path = "~" <> rest

-- The text for a child: with a slash, and with the tilde that the user typed.
unfoldable pub completion : Files → Bool → Child → String
unfolding without_prefix
completion files use_tilde child =
    let home = home_or_empty files.home in
    let full_path = child.path <> "/" in
    if use_tilde && not (is_empty home)
    then tilde_for (without_prefix home full_path) full_path
    else full_path

-- Directories that are not hidden and whose name begins with the prefix.
unfoldable pub matches : String → Child → Bool
unfolding without_prefix
matches prefix child =
    child.is_directory
    && (not (starts_with b'.' child.filename) && is_some (without_prefix prefix child.filename))

unfoldable pub completions : Files → Bool → String → List Child → List String
unfolding completion matches
completions files use_tilde prefix [] = []
completions files use_tilde prefix (child ∷ children) =
    let rest = completions files use_tilde prefix children in
    if matches prefix child then completion files use_tilde child ∷ rest else rest

unfoldable pub complete_path : Files → String → List String
unfolding expand_home completions
complete_path files partial =
    let (parent_dir, prefix) = looked_up files (expand_home files.home partial) in
    let found = completions files (starts_with b'~' partial) prefix (files.children parent_dir) in
    if not (files.is_directory parent_dir) then [] else take 20 (files.sorted found)

abbrev IsChild : Child → List Child → Type 0
IsChild child [] = true ≡ false
IsChild child (first ∷ children) = (child ≡ first) ⊎ IsChild child children

-- A text offered for a child of the directory: the path of the child with a slash, or what follows the
-- home directory in that with a tilde.
abbrev pub IsOffer : Files → Child → String → Type 0
IsOffer files child text =
    (text ≡ child.path <> "/")
    ⊎ ((home rest : String) × (files.home ≡ some home)
        × (child.path <> "/" ≡ home <> rest)
        × (text ≡ "~" <> rest))

-- It is a directory, its name does not begin with a dot but begins with the prefix.
pub record IsCompletion (files : Files) (prefix : String) (children : List Child) (text : String)
    : Type 0 where
  pub child : Child
  pub listed : IsChild child children
  pub is_dir : child.is_directory ≡ true
  pub visible : (c : Char) (rest : String) → child.filename ≡ String.◌∷◌ c rest → code c ≢ b'.'
  pub rest : String
  pub begins : child.filename ≡ prefix <> rest
  pub offers : IsOffer files child text

without_prefix-some : (p s rest : String) → without_prefix p s ≡ some rest → s ≡ p <> rest
unfolding without_prefix
without_prefix-some String.[] s rest h = some_inj.0 h ∙ sym (nil-append rest)
without_prefix-some (String.◌∷◌ c p) String.[] rest h = cc
without_prefix-some (String.◌∷◌ c p) (String.◌∷◌ e s) rest h =
    if_cases (λ o. o ≡ some rest → String.◌∷◌ e s ≡ String.◌∷◌ c p <> rest) (code c == code e)
      (without_prefix p s) none
      (λ same k.
        ap (λ x. String.◌∷◌ x s) (sym (Char-path c e ((==_iff (code c) (code e)).0 same)))
        ∙ ap (λ t. String.◌∷◌ c t) (without_prefix-some p s rest k)
        ∙ sym (cons-append c p rest))
      (λ n k. cc) h

some_rest : (o : Option String) → is_some o ≡ true → (rest : String) × (o ≡ some rest)
some_rest none h = cc
some_rest (some rest) h = (rest, refl)

tilde_for-IsOffer :
    (files : Files) (child : Child) (home : String) (o : Option String)
    → files.home ≡ some home
    → without_prefix home (child.path <> "/") ≡ o
    → IsOffer files child (tilde_for o (child.path <> "/"))
tilde_for-IsOffer files child home none h e = inl refl
tilde_for-IsOffer files child home (some rest) h e =
    inr (home, rest, h, without_prefix-some home (child.path <> "/") rest e, refl)

tilde-IsOffer :
    (files : Files) (child : Child) (o : Option String) (use_tilde : Bool)
    → files.home ≡ o
    → let full_path = child.path <> "/" in
      IsOffer files child (
        if use_tilde && not (is_empty (home_or_empty o))
        then tilde_for (without_prefix (home_or_empty o) full_path) full_path
        else full_path)
tilde-IsOffer files child none true h = inl refl
tilde-IsOffer files child none false h = inl refl
tilde-IsOffer files child (some home) use_tilde h =
    let full_path = child.path <> "/" in
    if_both (IsOffer files child) (use_tilde && not (is_empty home))
      (tilde_for (without_prefix home full_path) full_path) full_path
      (tilde_for-IsOffer files child home (without_prefix home full_path) h refl) (inl refl)

completion-IsOffer :
    (files : Files) (use_tilde : Bool) (child : Child)
    → IsOffer files child (completion files use_tilde child)
unfolding completion
completion-IsOffer files use_tilde child = tilde-IsOffer files child files.home use_tilde refl

matches-IsCompletion :
    (files : Files) (use_tilde : Bool) (prefix : String) (child : Child) (children : List Child)
    → matches prefix child ≡ true
    → IsCompletion files prefix (child ∷ children) (completion files use_tilde child)
unfolding matches
matches-IsCompletion files use_tilde prefix child children m =
    let (rest, found) : (rest : String) × (without_prefix prefix child.filename ≡ some rest) =
      some_rest (without_prefix prefix child.filename) (ground arith) in
    record {
      child = child;
      listed = inl refl;
      is_dir = ground arith;
      visible = λ c r e. ground (arith, ap (starts_with b'.') e);
      rest = rest;
      begins = without_prefix-some prefix child.filename rest found;
      offers = completion-IsOffer files use_tilde child;
    }

later-IsCompletion :
    (files : Files) (prefix : String) (first : Child) (children : List Child) (text : String)
    → IsCompletion files prefix children text
    → IsCompletion files prefix (first ∷ children) text
later-IsCompletion files prefix first children text c = record {
  child = c.child;
  listed = inr c.listed;
  is_dir = c.is_dir;
  visible = c.visible;
  rest = c.rest;
  begins = c.begins;
  offers = c.offers;
}

All-map :
    (P Q : String → Type 0) (xs : List String) → ((x : String) → P x → Q x) → All P xs → All Q xs
All-map P Q [] f h = tt
All-map P Q (x ∷ xs) f (h, hs) = (f x h, All-map P Q xs f hs)

All-take : (P : String → Type 0) (n : ℕ) (xs : List String) → All P xs → All P (take n xs)
All-take P zero xs h = tt
All-take P (suc n) [] h = tt
All-take P (suc n) (x ∷ xs) (h, hs) = (h, All-take P n xs hs)

module _ (files : Files) where
  completions-All :
      (use_tilde : Bool) (prefix : String) (children : List Child)
      → All (IsCompletion files prefix children) (completions files use_tilde prefix children)
  unfolding completions
  completions-All use_tilde prefix [] = tt
  completions-All use_tilde prefix (child ∷ children) =
      let later =
        All-map _ _ (completions files use_tilde prefix children)
          (later-IsCompletion files prefix child children)
          (completions-All use_tilde prefix children) in
      if_cases (All (IsCompletion files prefix (child ∷ children))) (matches prefix child) _ _
        (λ m. (matches-IsCompletion files use_tilde prefix child children m, later)) (λ n. later)

  -- At most 20 texts are offered, if sorting loses and adds none. Each stands for a child of the directory
  -- that was looked up: a directory whose name begins with what was typed and not with a dot. It is the
  -- path of the child with a slash, or a tilde with what follows the home directory in that.
  pub complete_path_lists :
      (partial : String)
      → ((P : String → Type 0) (xs : List String) → All P xs → All P (files.sorted xs))
      → let (parent_dir, prefix) = looked_up files (expand_home files.home partial) in
        (length (complete_path files partial) ≤ 20)
        × All (IsCompletion files prefix (files.children parent_dir)) (complete_path files partial)
  unfolding complete_path
  complete_path_lists partial keeps =
      let (parent_dir, prefix) = looked_up files (expand_home files.home partial) in
      let tilde = starts_with b'~' partial in
      let found = completions files tilde prefix (files.children parent_dir) in
      if_cases
        (λ (texts : List String).
          (length texts ≤ 20) × All (IsCompletion files prefix (files.children parent_dir)) texts)
        (not (files.is_directory parent_dir)) [] (take 20 (files.sorted found))
        (λ n. (omega arith, tt))
        (λ y. (
          omega (arith, length-take 20 (files.sorted found)),
          All-take _ 20 (files.sorted found)
              (keeps _ found (completions-All tilde prefix (files.children parent_dir))),
        ))
