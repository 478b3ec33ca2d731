-- ===== src/Access/Tests.antt =====
-- Requests of different users, and the theorems at these inputs.
use inventaire.Base.{
  ℕ, ◌≤◌, true, false, none, some, List, [], ◌∷◌, String, any, includes, filter, leb, if◌then◌else◌,
  Outcome, ok, err, http, ◌≡◌, refl,
}
use inventaire.Access.{
  dataadmin, admin, AccessLevel, for_public, for_dataadmin, level_eq, roles_by_access,
  access_by_role, uniq_onto, levels_of, get_user_access_levels, has_admin_access,
  has_dataadmin_access, anonymous, of_user, request_roles, status_code, controller_wrapper,
  add_level, get_actions_controllers_params, dispatch, actions_controllers,
}
use inventaire.Access.Levels.{rank}
use inventaire.Access.Dispatch.{
  rank_of, Declared, controller_wrapper-rank, actions_controllers-Declared,
}

server : Unit {0}
unfolding roles_by_access access_by_role uniq_onto levels_of get_user_access_levels has_admin_access
    has_dataadmin_access request_roles controller_wrapper add_level get_actions_controllers_params
    dispatch actions_controllers any includes filter
server = tt

abbrev endpoint : List (AccessLevel × List (String × Outcome ℕ))
endpoint =
    (for_public, ("default", ok 1) ∷ [])
    ∷ (for_dataadmin, ("merge", ok 2) ∷ ("revert", err (http "nothing to revert" 400)) ∷ [])
    ∷ []

runs :
    (actions_controllers endpoint anonymous none ≡ ok 1)
    × (actions_controllers endpoint anonymous (some "merge")
        ≡ err (http "unauthorized api access" 401))
    × (actions_controllers endpoint (of_user []) (some "merge")
        ≡ err (http "unauthorized api access" 403))
    × (actions_controllers endpoint (of_user (admin ∷ [])) (some "merge") ≡ ok 2)
    × (actions_controllers endpoint anonymous (some "split") ≡ err (http "unknown action" 400))
    × (has_admin_access (dataadmin ∷ []) ≡ false)
    × (has_dataadmin_access (admin ∷ dataadmin ∷ []) ≡ true)
unfolding server
runs = (refl, refl, refl, refl, refl, refl, refl)

merged_ok : actions_controllers endpoint (of_user (admin ∷ [])) (some "merge") ≡ ok 2
unfolding server
merged_ok = refl

actions_controllers-Declared_example :
    (access : AccessLevel) × (controller : Outcome ℕ) × Declared "merge" access controller endpoint
    × (rank access ≤ rank_of (of_user (admin ∷ [])))
    × (controller ≡ ok 2)
actions_controllers-Declared_example =
    actions_controllers-Declared endpoint (of_user (admin ∷ [])) (some "merge") 2 tt merged_ok

abbrev merge : Outcome ℕ
merge = ok 2

controller_wrapper-rank_example : controller_wrapper for_dataadmin (of_user []) merge ≡ (
    if leb (rank for_dataadmin) (rank_of (of_user []))
    then merge
    else err (http "unauthorized api access" (status_code (of_user []))))
controller_wrapper-rank_example = controller_wrapper-rank for_dataadmin (of_user []) merge tt
