-- ===== src/Common/Map.antt =====
-- std::unordered_map and std::map with text keys, as association lists in order of insertion. No
-- property of the development rests on the order of the entries.
use mathlib.Core.Path.{◌≡◌, refl}
use mathlib.Core.Logic.{◌≢◌}
use mathlib.Core.Bool.{Bool, false, ◌||◌}
use mathlib.Core.Option.{Option, none, some}
use mathlib.Core.List.{List, [], ◌∷◌}
use native.Mathlib.Omega.{arith}
use Prim.Native.String.{String}
use text.Mathlib.TextEquality.{eq_iff}
use text.Mathlib.TextPositions.{eq_refl}
use hector_recorder.Common.Tests.{str_eq, if◌then◌else◌}

abbrev pub Map {ℓ} : Type ℓ → Type ℓ
Map V = List (String × V)

module _ {ℓ} {V : Type ℓ} where
  -- m.find(k)
  unfoldable pub lookup : String → Map V → Option V
  lookup k [] = none
  lookup k ((j, v) ∷ m) = if str_eq j k then some v else lookup k m

  -- m.count(k) > 0
  unfoldable pub contains : String → Map V → Bool
  contains k [] = false
  contains k ((j, v) ∷ m) = str_eq j k || contains k m

  -- m[k] = v
  unfoldable pub insert : String → V → Map V → Map V
  insert k v [] = (k, v) ∷ []
  insert k v ((j, old) ∷ m) = if str_eq j k then (k, v) ∷ m else (j, old) ∷ insert k v m

  -- m.emplace(k, v), m.insert({k, v}): an entry that is there stays.
  unfoldable pub emplace : String → V → Map V → Map V
  unfolding contains insert
  emplace k v m = if contains k m then m else insert k v m

  -- m.erase(k)
  unfoldable pub erase : String → Map V → Map V
  erase k [] = []
  erase k ((j, v) ∷ m) = let rest = erase k m in if str_eq j k then rest else (j, v) ∷ rest

  -- *m.find(k), or what `m[k]` creates
  unfoldable pub get_or : String → V → Map V → V
  get_or k d [] = d
  get_or k d ((j, v) ∷ m) = if str_eq j k then v else get_or k d m

  pub lookup-insert :
      (k j : String) (v : V) (m : Map V)
      → lookup j (insert k v m) ≡ (if str_eq k j then some v else lookup j m)
  unfolding lookup insert
  lookup-insert k j v [] = refl
  lookup-insert k j v ((head, old) ∷ m) =
      ground (arith, eq_iff head j, eq_iff head k, eq_iff k j, lookup-insert k j v m)

  pub lookup-erase :
      (k j : String) (m : Map V) → lookup j (erase k m) ≡ (if str_eq k j then none else lookup j m)
  unfolding lookup erase
  lookup-erase k j [] = ground arith
  lookup-erase k j ((head, old) ∷ m) =
      ground (arith, eq_iff head j, eq_iff head k, eq_iff k j, lookup-erase k j m)

  pub contains-insert :
      (k j : String) (v : V) (m : Map V) → contains j (insert k v m) ≡ (str_eq k j || contains j m)
  unfolding contains insert
  contains-insert k j v [] = refl
  contains-insert k j v ((head, old) ∷ m) =
      ground (arith, eq_iff head j, eq_iff head k, eq_iff k j, contains-insert k j v m)

  pub contains-emplace :
      (k j : String) (v : V) (m : Map V) → contains j (emplace k v m) ≡ (str_eq k j || contains j m)
  unfolding emplace
  contains-emplace k j v m = ground (arith, eq_iff k j, contains-insert k j v m)

  pub get_or-insert :
      (k j : String) (d v : V) (m : Map V)
      → get_or j d (insert k v m) ≡ (if str_eq k j then v else get_or j d m)
  unfolding get_or insert
  get_or-insert k j d v [] = refl
  get_or-insert k j d v ((head, old) ∷ m) =
      ground (arith, eq_iff head j, eq_iff head k, eq_iff k j, get_or-insert k j d v m)

  pub get_or-insert_self : (k : String) (d v : V) (m : Map V) → get_or k d (insert k v m) ≡ v
  get_or-insert_self k d v m = ground (arith, get_or-insert k k d v m, eq_refl k)

  pub get_or-insert_ne :
      (k j : String) (d v : V) (m : Map V) → k ≢ j → get_or j d (insert k v m) ≡ get_or j d m
  get_or-insert_ne k j d v m h = ground (arith, get_or-insert k j d v m, eq_iff k j)

  pub lookup-insert_self : (k : String) (v : V) (m : Map V) → lookup k (insert k v m) ≡ some v
  lookup-insert_self k v m = ground (arith, lookup-insert k k v m, eq_refl k)

  pub lookup-insert_ne :
      (k j : String) (v : V) (m : Map V) → k ≢ j → lookup j (insert k v m) ≡ lookup j m
  lookup-insert_ne k j v m h = ground (arith, lookup-insert k j v m, eq_iff k j)

  pub contains-erase :
      (k j : String) (m : Map V)
      → contains j (erase k m) ≡ (if str_eq k j then false else contains j m)
  unfolding contains erase
  contains-erase k j [] = ground arith
  contains-erase k j ((head, old) ∷ m) =
      ground (arith, eq_iff head j, eq_iff head k, eq_iff k j, contains-erase k j m)

  get_or-absent : (k : String) (d : V) (m : Map V) → contains k m ≡ false → get_or k d m ≡ d
  unfolding get_or contains
  get_or-absent k d [] h = refl
  get_or-absent k d ((head, old) ∷ m) h = ground (arith, get_or-absent k d m)

  -- An entry with the default value changes no reading with that default.
  pub get_or-emplace_default :
      (k j : String) (d : V) (m : Map V) → get_or j d (emplace k d m) ≡ get_or j d m
  unfolding emplace
  get_or-emplace_default k j d m =
      ground (arith, get_or-insert k j d d m, get_or-absent j d m, eq_iff k j)
