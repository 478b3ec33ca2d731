-- ===== src/Access.antt =====
-- Who may call which endpoint (server/lib/user_access_levels.ts, server/lib/controller_wrapper.ts and
-- server/lib/actions_controllers.ts). A controller is what it returns for the request, once its
-- parameters are sanitized; sending and tracking are left out.
mod Levels
mod Dispatch
mod Tests
use inventaire.Base.{
  ℕ, Bool, true, false, Option, none, some, List, [], ◌∷◌, ◌++◌, ◌==◌, HasEq, string_eq, String,
  any, includes, filter, ◌||◌, not, if◌then◌else◌, Outcome, ok, err, http, ◌>>=◌, ◌≡◌, ◌↔◌, arith,
}
use inventaire.Couch.{memory_lookup, memory_put}

pub data Role : Type 0 where
  public authentified dataadmin admin : Role

-- The access levels; the last three are named after roles.
pub data AccessLevel : Type 0 where
  for_public semipublic for_authentified for_dataadmin for_admin : AccessLevel

abbrev pub role_beq : Role → Role → Bool
role_beq public public = true
role_beq authentified authentified = true
role_beq dataadmin dataadmin = true
role_beq admin admin = true
role_beq _ _ = false

pub role_beq_iff : (a b : Role) → (role_beq a b ≡ true) ↔ (a ≡ b)
role_beq_iff a b = ground arith

instance abbrev pub role_eq : HasEq Role
role_eq = record { same = role_beq; same_iff = role_beq_iff }

abbrev pub level_beq : AccessLevel → AccessLevel → Bool
level_beq for_public for_public = true
level_beq semipublic semipublic = true
level_beq for_authentified for_authentified = true
level_beq for_dataadmin for_dataadmin = true
level_beq for_admin for_admin = true
level_beq _ _ = false

pub level_beq_iff : (a b : AccessLevel) → (level_beq a b ≡ true) ↔ (a ≡ b)
level_beq_iff a b = ground arith

instance abbrev pub level_eq : HasEq AccessLevel
level_eq = record { same = level_beq; same_iff = level_beq_iff }

unfoldable pub roles_by_access : AccessLevel → List Role
roles_by_access for_public = public ∷ authentified ∷ dataadmin ∷ admin ∷ []
roles_by_access semipublic = public ∷ authentified ∷ dataadmin ∷ admin ∷ []
roles_by_access for_authentified = authentified ∷ dataadmin ∷ admin ∷ []
roles_by_access for_dataadmin = dataadmin ∷ admin ∷ []
roles_by_access for_admin = admin ∷ []

abbrev pub access_levels : List AccessLevel
access_levels = for_public ∷ semipublic ∷ for_authentified ∷ for_dataadmin ∷ for_admin ∷ []

-- accessByRoles[role]
unfoldable pub access_by_role : Role → List AccessLevel
access_by_role role = filter (λ level. includes (roles_by_access level) role) access_levels

-- uniq(lists.flat()), which keeps the first of equal values
unfoldable pub uniq_onto : List AccessLevel → List AccessLevel → List AccessLevel
uniq_onto seen [] = seen
uniq_onto seen (l ∷ ls) = uniq_onto (if includes seen l then seen else seen ++ l ∷ []) ls

unfoldable pub levels_of : List Role → List AccessLevel
levels_of [] = []
levels_of (role ∷ roles) = access_by_role role ++ levels_of roles

unfoldable pub get_user_access_levels : List Role → List AccessLevel
get_user_access_levels [] = []
get_user_access_levels (role ∷ []) = access_by_role role
get_user_access_levels (role ∷ other ∷ roles) = uniq_onto [] (levels_of (role ∷ other ∷ roles))

unfoldable pub has_admin_access : List Role → Bool
has_admin_access roles = includes (get_user_access_levels roles) for_admin

unfoldable pub has_dataadmin_access : List Role → Bool
has_dataadmin_access roles = includes (get_user_access_levels roles) for_dataadmin

-- A request of nobody, of a user with the roles of the user's document, or signed for a remote user,
-- whose signature the given result verifies
pub data Req : Type 0 where
  anonymous : Req
  of_user : List Role → Req
  signed : Outcome (Unit {0}) → Req

unfoldable pub request_roles : Req → Outcome (List Role)
request_roles anonymous = ok (public ∷ [])
request_roles (of_user roles) = ok (public ∷ authentified ∷ roles)
request_roles (signed verified) = do u ← verified; ok (public ∷ authentified ∷ [])

abbrev pub status_code : Req → ℕ
status_code (of_user _) = 403
status_code _ = 401

-- someMatch
abbrev pub roles_match : List Role → List Role → Bool
roles_match xs ys = any (λ x. includes ys x) xs

-- req.query.action || req.body.action || 'default'
abbrev pub or_default : Option String → String
or_default none = "default"
or_default (some action) = action

module _ {A : Type 0} where
  unfoldable pub controller_wrapper : AccessLevel → Req → Outcome A → Outcome A
  controller_wrapper access req controller = do
    roles ← request_roles req
    if roles_match roles (roles_by_access access)
        then controller
        else err (http "unauthorized api access" (status_code req))

  -- actionControllers of one level, written over what is there
  unfoldable pub add_level :
      AccessLevel
      → List (String × Outcome A)
      → List (String × (AccessLevel × Outcome A))
      → List (String × (AccessLevel × Outcome A))
  add_level access [] params = params
  add_level access ((action, controller) ∷ actions) params =
      add_level access actions (memory_put params action (access, controller))

  unfoldable pub get_actions_controllers_params :
      List (AccessLevel × List (String × Outcome A))
      → List (String × (AccessLevel × Outcome A))
      → List (String × (AccessLevel × Outcome A))
  get_actions_controllers_params [] params = params
  get_actions_controllers_params ((access, actions) ∷ controllers) params =
      get_actions_controllers_params controllers (add_level access actions params)

  unfoldable pub dispatch : String → Req → Option (AccessLevel × Outcome A) → Outcome A
  dispatch action req none =
      if action == "default"
      then err (http "missing parameter in query: action" 400)
      else err (http "unknown action" 400)
  dispatch action req (some (access, controller)) = controller_wrapper access req controller

  unfoldable pub actions_controllers :
      List (AccessLevel × List (String × Outcome A)) → Req → Option String → Outcome A
  actions_controllers controllers req action =
      dispatch (or_default action) req
        (memory_lookup (get_actions_controllers_params controllers []) (or_default action))
