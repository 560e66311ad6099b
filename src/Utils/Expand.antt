-- ===== src/Utils/Expand.antt =====
-- expandUserAndEnv: `~` and environment variables in a path. The two regular expressions,
-- \$\{([A-Za-z_][A-Za-z0-9_]*)\} and \$([A-Za-z_][A-Za-z0-9_]*), are written out as the matchers
-- `braced` and `plain` of what follows a dollar sign.
use Prim.Native.Char.{Char, code}
use hector_recorder.Common.{
  ℕ, zero, suc, ◌+◌, String, ◌<>◌, Bool, true, false, ◌&&◌, ◌||◌, ◌≡◌, refl, ap, Option, none, some,
  leb, ◌==◌, if◌then◌else◌,
}

-- [A-Za-z_]
unfoldable pub is_name_start : Char → Bool
is_name_start c =
    leb b'A' (code c) && leb (code c) b'Z'
    || leb b'a' (code c) && leb (code c) b'z'
    || code c == b'_'

-- [A-Za-z0-9_]
unfoldable pub is_name_char : Char → Bool
unfolding is_name_start
is_name_char c = is_name_start c || leb b'0' (code c) && leb (code c) b'9'

-- The longest run of name characters, its length, and what follows.
unfoldable pub take_name : String → String × ℕ × String
unfolding is_name_char
take_name String.[] = ("", 0, "")
take_name (String.◌∷◌ c s) =
    let (name, n, rest) = take_name s in
    if is_name_char c then (String.◌∷◌ c name, suc n, rest) else ("", 0, String.◌∷◌ c s)

abbrev starts_name : String → Bool
starts_name String.[] = false
starts_name (String.◌∷◌ c s) = is_name_start c

abbrev closes : String → Bool
closes String.[] = false
closes (String.◌∷◌ c s) = code c == b'}'

-- A match gives the captured name and its length after the dollar sign.
unfoldable pub plain : String → Option (String × ℕ)
unfolding take_name
plain s = let (name, n, rest) = take_name s in if starts_name s then some (name, n) else none

abbrev braced_name : Bool → String → Option (String × ℕ)
braced_name false s = none
braced_name true s =
    let (name, n, rest) = take_name s in
    if starts_name s && closes rest then some (name, n + 2) else none

unfoldable pub braced : String → Option (String × ℕ)
unfolding take_name
braced String.[] = none
braced (String.◌∷◌ c s) = braced_name (code c == b'{') s

-- getenv, with no value read as the empty text.
abbrev value_of : Option String → String
value_of none = ""
value_of (some v) = v

abbrev replaced : (String → Option String) → Option (String × ℕ) → Char → (ℕ → String) → String
replaced env none c rest = String.◌∷◌ c (rest 0)
replaced env (some (name, n)) c rest = value_of (env name) <> rest n

-- The loop over the matches of replace_env; the number counts the characters of a match still to skip.
unfoldable pub replace_env :
    (String → Option (String × ℕ)) → (String → Option String) → ℕ → String → String
replace_env match env skip String.[] = ""
replace_env match env (suc skip) (String.◌∷◌ c s) = replace_env match env skip s
replace_env match env zero (String.◌∷◌ c s) =
    replaced env (if code c == b'$' then match s else none) c (λ k. replace_env match env k s)

abbrev home_or : Option String → String → String → String
home_or none rest s = s
home_or (some home) String.[] s = home
home_or (some home) (String.◌∷◌ c rest) s = if code c == b'/' then home <> String.◌∷◌ c rest else s

unfoldable pub expand_user : (String → Option String) → String → String
expand_user env String.[] = ""
expand_user env (String.◌∷◌ c s) =
    if code c == b'~' then home_or (env "HOME") s (String.◌∷◌ c s) else String.◌∷◌ c s

unfoldable pub expand_user_and_env : (String → Option String) → String → String
unfolding expand_user replace_env plain braced
expand_user_and_env env s = replace_env plain env 0 (replace_env braced env 0 (expand_user env s))

-- The text has no dollar sign.
abbrev pub NoDollar : String → Type 0
NoDollar String.[] = Unit {0}
NoDollar (String.◌∷◌ c s) = ((code c == b'$') ≡ false) × NoDollar s

abbrev pub NoTilde : String → Type 0
NoTilde String.[] = Unit {0}
NoTilde (String.◌∷◌ c s) = (code c == b'~') ≡ false

replace_env_none :
    (match : String → Option (String × ℕ)) (env : String → Option String) (s : String)
    → NoDollar s
    → replace_env match env 0 s ≡ s
unfolding replace_env
replace_env_none match env String.[] h = refl
replace_env_none match env (String.◌∷◌ c s) h =
    rw h.0 (ap (String.◌∷◌ c) (replace_env_none match env s h.1))

expand_user_none : (env : String → Option String) (s : String) → NoTilde s → expand_user env s ≡ s
unfolding expand_user
expand_user_none env String.[] h = refl
expand_user_none env (String.◌∷◌ c s) h = rw h

-- A path with no dollar sign that does not begin with `~` is left as it is, in every environment.
pub expand_literal :
    (env : String → Option String) (s : String)
    → NoTilde s
    → NoDollar s
    → expand_user_and_env env s ≡ s
unfolding expand_user_and_env
expand_literal env s t h =
    rw (expand_user_none env s t, replace_env_none braced env s h) (replace_env_none plain env s h)
