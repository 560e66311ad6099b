-- ===== src/Utils/Infrastructure.antt =====
-- isInfrastructureService of hector_recorder/include/hector_recorder/utils.h, and
-- handleGetAvailableServices and handleGetAvailableTopics of
-- hector_recorder/src/service_handlers.cpp.
use Prim.Native.Char.{code}
use hector_recorder.Common.{
  String, ◌<>◌, Bool, true, false, ◌||◌, Option, none, some, List, [], ◌∷◌, str_eq, ◌==◌,
  if◌then◌else◌,
}
use hector_recorder.Common.Map.{Map}

-- What follows the last slash, if there is one.
abbrev pub or_leaf : Option String → Bool → String → Option String
or_leaf (some leaf) slash s = some leaf
or_leaf none true s = some s
or_leaf none false s = none

unfoldable pub leaf : String → Option String
leaf String.[] = none
leaf (String.◌∷◌ c s) = or_leaf (leaf s) (code c == b'/') s

unfoldable pub is_infrastructure_leaf : String → Bool
is_infrastructure_leaf l =
    str_eq l "list_parameters"
    || str_eq l "describe_parameters"
    || str_eq l "get_parameters"
    || str_eq l "set_parameters"
    || str_eq l "get_parameter_types"
    || str_eq l "set_parameters_atomically"
    || str_eq l "change_state"
    || str_eq l "get_state"
    || str_eq l "get_available_states"
    || str_eq l "get_available_transitions"
    || str_eq l "get_transition_graph"
    || str_eq l "get_type_description"
    || str_eq l "set_logger_levels"
    || str_eq l "get_logger_levels"

abbrev judge_leaf : Option String → Bool
judge_leaf none = false
judge_leaf (some l) = is_infrastructure_leaf l

unfoldable pub is_infrastructure_service : String → Bool
unfolding leaf is_infrastructure_leaf
is_infrastructure_service name = judge_leaf (leaf name)

-- The types of a name, joined by commas.
unfoldable pub join_types : List String → String
join_types [] = ""
join_types (t ∷ []) = t
join_types (t ∷ (u ∷ ts)) = t <> (", " <> join_types (u ∷ ts))

unfoldable pub get_available_topics : Map (List String) → List (String × String)
unfolding join_types
get_available_topics [] = []
get_available_topics ((name, types) ∷ all) = (name, join_types types) ∷ get_available_topics all

unfoldable pub get_available_services : Map (List String) → List (String × String)
unfolding join_types is_infrastructure_service
get_available_services [] = []
get_available_services ((name, types) ∷ all) =
    let rest = get_available_services all in
    if is_infrastructure_service name then rest else (name, join_types types) ∷ rest
