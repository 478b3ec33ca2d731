-- ===== src/Access/Dispatch.antt =====
-- The requests that controllerWrapper (server/lib/controller_wrapper.ts) lets through, by their rank,
-- and the controllers that actionsControllersFactory (server/lib/actions_controllers.ts) runs.
use inventaire.Base.{
  ℕ, ◌≤◌, Option, none, some, List, [], ◌∷◌, ◌==◌, string_eq, String, leb, if◌then◌else◌, Outcome,
  ok, err, http, ◌≡◌, ◌∙◌, ◌⊎◌, inl, inr, refl, sym, ap, arith, eq_iff, Bool-cases,
}
use inventaire.Couch.{memory_lookup, memory_put, memory_lookup-put}
use inventaire.Access.{
  Role, public, authentified, AccessLevel, Req, anonymous, of_user, signed, request_roles,
  status_code, controller_wrapper, add_level, get_actions_controllers_params, dispatch, or_default,
  actions_controllers,
}
use inventaire.Access.Levels.{rank, top, roles_match-top}

-- Anybody's rank is 0, that of a user or a remote user 1, or that of the user's highest role.
abbrev pub rank_of : Req → ℕ
rank_of anonymous = 0
rank_of (of_user roles) = top public (authentified ∷ roles)
rank_of (signed _) = 1

abbrev pub IsVerified : Req → Type 0
IsVerified (signed verified) = verified ≡ ok tt
IsVerified _ = Unit

module _ {A : Type 0} where
  wrapped :
      (access : AccessLevel) (req : Req) (controller : Outcome A) (role : Role) (roles : List Role)
      → request_roles req ≡ ok (role ∷ roles)
      → controller_wrapper access req controller ≡ (
          if leb (rank access) (top role roles)
          then controller
          else err (http "unauthorized api access" (status_code req)))
  unfolding controller_wrapper
  wrapped access req controller role roles h = rw (h, roles_match-top access role roles) refl

  -- A request, whose signature if it has one is verified, runs a controller exactly if its rank reaches
  -- the controller's access level; else it is refused, with the status 403 for a user and 401 for
  -- others.
  pub controller_wrapper-rank :
      (access : AccessLevel) (req : Req) (controller : Outcome A)
      → IsVerified req
      → controller_wrapper access req controller ≡ (
          if leb (rank access) (rank_of req)
          then controller
          else err (http "unauthorized api access" (status_code req)))
  unfolding request_roles
  controller_wrapper-rank access anonymous controller h =
      wrapped access anonymous controller public [] refl
  controller_wrapper-rank access (of_user roles) controller h =
      wrapped access (of_user roles) controller public (authentified ∷ roles) refl
  controller_wrapper-rank access (signed verified) controller h =
      wrapped access (signed verified) controller public (authentified ∷ []) (rw h refl)

  granted :
      (access : AccessLevel) (req : Req) (controller : Outcome A) (a : A)
      → IsVerified req
      → controller_wrapper access req controller ≡ ok a
      → (rank access ≤ rank_of req) × (controller ≡ ok a)
  granted access req controller a v h =
      let e = sym (controller_wrapper-rank access req controller v) ∙ h in
      elim (Bool-cases (leb (rank access) (rank_of req))) [
        | inl reached ↦ (ground arith, rw reached at e)
        | inr short ↦ absurd (ground (arith, rw short at e))
      ]

  abbrev In : String → Outcome A → List (String × Outcome A) → Type 0
  In action controller [] = ⊥
  In action controller ((a, c) ∷ actions) =
      ((a ≡ action) × (c ≡ controller)) ⊎ In action controller actions

  -- The action is declared with the controller at the level.
  abbrev pub Declared :
      String → AccessLevel → Outcome A → List (AccessLevel × List (String × Outcome A)) → Type 0
  Declared action access controller [] = ⊥
  Declared action access controller ((level, actions) ∷ controllers) =
      ((level ≡ access) × In action controller actions)
      ⊎ Declared action access controller controllers

  abbrev entry : AccessLevel → Outcome A → Option (AccessLevel × Outcome A)
  entry access controller = some (access, controller)

  same_entry : (l k : AccessLevel) (c d : Outcome A) → entry l c ≡ entry k d → (l ≡ k) × (c ≡ d)
  same_entry l k c d e = (ap (level_in l) e, ap (controller_in c) e)
    where
      level_in : AccessLevel → Option (AccessLevel × Outcome A) → AccessLevel
      level_in l none = l
      level_in l (some (m, _)) = m

      controller_in : Outcome A → Option (AccessLevel × Outcome A) → Outcome A
      controller_in c none = c
      controller_in c (some (_, f)) = f

  lookup-add_level :
      (level access : AccessLevel) (action : String) (controller : Outcome A)
      (actions : List (String × Outcome A)) (params : List (String × (AccessLevel × Outcome A)))
      → memory_lookup (add_level level actions params) action ≡ some (access, controller)
      → ((level ≡ access) × In action controller actions)
        ⊎ (memory_lookup params action ≡ some (access, controller))
  unfolding add_level
  lookup-add_level level access action controller [] params h = inr h
  lookup-add_level level access action controller ((a, c) ∷ actions) params h =
      elim (lookup-add_level level access action controller actions (memory_put params a (level, c))
        h) [
          | inl (e, found) ↦ inl (e, inr found)
          | inr put ↦ elim (Bool-cases (a == action)) [
            | inl same ↦
                let (p, q) =
                  same_entry level access c controller
                    (sym (memory_lookup-put params a action (level, c) ∙ (rw same refl)) ∙ put) in
                inl (p, inl ((eq_iff a action).0 same, q))
            | inr other ↦
                inr (sym (memory_lookup-put params a action (level, c) ∙ (rw other refl)) ∙ put)
          ]
        ]

  lookup-Declared :
      (controllers : List (AccessLevel × List (String × Outcome A))) (access : AccessLevel)
      (action : String) (controller : Outcome A)
      (params : List (String × (AccessLevel × Outcome A)))
      → memory_lookup (get_actions_controllers_params controllers params) action
        ≡ some (access, controller)
      → Declared action access controller controllers
        ⊎ (memory_lookup params action ≡ some (access, controller))
  unfolding get_actions_controllers_params
  lookup-Declared [] access action controller params h = inr h
  lookup-Declared ((level, actions) ∷ controllers) access action controller params h =
      elim (lookup-Declared controllers access action controller (add_level level actions params)
        h) [
          | inl found ↦ inl (inr found)
          | inr here ↦ elim (lookup-add_level level access action controller actions params here) [
            | inl (e, found) ↦ inl (inl (e, found))
            | inr before ↦ inr before
          ]
        ]

  dispatch_inv :
      (action : String) (req : Req) (o : Option (AccessLevel × Outcome A)) (a : A)
      → dispatch action req o ≡ ok a
      → (access : AccessLevel) × (controller : Outcome A) × (o ≡ some (access, controller))
        × (controller_wrapper access req controller ≡ ok a)
  unfolding dispatch
  dispatch_inv action req none a h = absurd (ground arith)
  dispatch_inv action req (some (access, controller)) a h = (access, controller, refl, h)

  -- An endpoint's answer to a request, whose signature if it has one is verified, is that of a
  -- controller declared for the request's action, or for `default` where it names none, at an access
  -- level that the request's rank reaches.
  pub actions_controllers-Declared :
      (controllers : List (AccessLevel × List (String × Outcome A))) (req : Req)
      (action : Option String) (a : A)
      → IsVerified req
      → actions_controllers controllers req action ≡ ok a
      → (access : AccessLevel) × (controller : Outcome A) × Declared
          (or_default action)
          access
          controller
          controllers
        × (rank access ≤ rank_of req)
        × (controller ≡ ok a)
  unfolding actions_controllers
  actions_controllers-Declared controllers req action a v h =
      let (access, controller, found, ran) =
        dispatch_inv (or_default action) req
          (memory_lookup (get_actions_controllers_params controllers []) (or_default action)) a h in
      let (reached, result) : (rank access ≤ rank_of req) × (controller ≡ ok a) =
        granted access req controller a v ran in
      elim (lookup-Declared controllers access (or_default action) controller [] found) [
        | inl declared ↦ (access, controller, declared, reached, result)
        | inr never ↦ absurd (ground arith)
      ]
