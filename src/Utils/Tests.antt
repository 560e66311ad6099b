-- ===== src/Utils/Tests.antt =====
-- Paths at concrete file systems.
use mathlib.Core.Path.{subst}
use hector_recorder.Common.{
  sym, Bool-cases, str_eq, inl, inr, ◌⊎◌, ◌<◌, ◌≤◌, String, true, false, ◌≡◌, ◌≢◌, refl, some, ok,
  arith, is_empty, eq_iff, [], ◌∷◌,
}
use hector_recorder.Utils.Expand.{
  expand_user_and_env, expand_user, replace_env, plain, braced, take_name, is_name_char,
  is_name_start,
}
use hector_recorder.Utils.Output.{out_of_fuel, find_rosbag_ancestor}
use hector_recorder.Utils.Infrastructure.{
  get_available_services, is_infrastructure_service, is_infrastructure_leaf, leaf, join_types,
}
use hector_recorder.Common.{length, List, ℕ}
use hector_recorder.Utils.Clip.{
  clip_string, clip_long, clip_middle, clip_suffix, clip_end, last_slash, clip_string_fits,
}
use hector_recorder.Utils.Placement.{IsFounded, find_rosbag_ancestor_returns}
use hector_recorder.Samples.{files}

expands : expand_user_and_env (λ name. some "x") "~/a$B_1/${C}d" ≡ "x/ax/xd"
unfolding expand_user_and_env expand_user replace_env plain braced take_name is_name_char
    is_name_start
expands = refl

-- What IsFounded asks of one path.
abbrev FoundedAt : String → Type 0
FoundedAt p =
    (is_empty (files.parent_path p) ≡ true)
    ⊎ (files.parent_path p ≡ p)
    ⊎ (files.depth (files.parent_path p) < files.depth p)

founded_elsewhere :
    (p : String)
    → str_eq p "/bags/old" ≡ false
    → str_eq p "/bags/new" ≡ false
    → str_eq p "/" ≡ false
    → FoundedAt p
founded_elsewhere p old new root = rw (old, new, root) (inr (inr (omega arith)))

files-IsFounded : IsFounded files
files-IsFounded p = elim (Bool-cases (str_eq p "/bags/old")) [
  | inl old ↦ subst FoundedAt (sym ((eq_iff p "/bags/old").0 old)) (inr (inr (omega arith)))
  | inr old ↦ elim (Bool-cases (str_eq p "/bags/new")) [
    | inl new ↦ subst FoundedAt (sym ((eq_iff p "/bags/new").0 new)) (inr (inr (omega arith)))
    | inr new ↦ elim (Bool-cases (str_eq p "/")) [
      | inl root ↦ subst FoundedAt (sym ((eq_iff p "/").0 root)) (inr (inl refl))
      | inr root ↦ founded_elsewhere p old new root
    ]
  ]
]

find_rosbag_ancestor_returns_example : find_rosbag_ancestor files "/bags/old" ≢ out_of_fuel
find_rosbag_ancestor_returns_example =
    find_rosbag_ancestor_returns files files-IsFounded "/bags/old"

services_run :
    get_available_services (
      ("/arm/move", "a/srv/Move" ∷ "b/srv/Move" ∷ [])
      ∷ ("/arm/get_parameters", "rcl_interfaces/srv/GetParameters" ∷ [])
      ∷ [])
    ≡ ("/arm/move", "a/srv/Move, b/srv/Move") ∷ []
unfolding get_available_services is_infrastructure_service is_infrastructure_leaf leaf join_types
services_run = refl

-- "/a/bcde"
abbrev path : List ℕ
path = b'/' ∷ b'a' ∷ b'/' ∷ b'b' ∷ b'c' ∷ b'd' ∷ b'e' ∷ []

clips : clip_string 6 path ≡ ok (b'.' ∷ b'.' ∷ b'.' ∷ b'c' ∷ b'd' ∷ b'e' ∷ [])
unfolding clip_string clip_long clip_middle clip_suffix clip_end last_slash
clips = refl

clip_string_fits_example :
    (t : List ℕ) × (clip_string 6 path ≡ ok t)
    × (((length path ≤ 6) × (t ≡ path)) ⊎ ((6 < length path) × (length t ≡ 6)))
clip_string_fits_example = clip_string_fits 6 path (omega arith)
