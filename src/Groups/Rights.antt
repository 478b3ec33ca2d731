-- ===== src/Groups/Rights.antt =====
-- Who may act on a group: the checks of membership_validations.ts in terms of roles.
use inventaire.Base.{
  ℕ, ◌≤◌, String, Bool, true, false, Option, none, some, List, [], ◌∷◌, map, any, includes,
  includes-append, ◌||◌, find?, nat_eq, ◌≡◌, ◌≢◌, ◌⊎◌, refl, arith, string_eq, ok, Option-cases,
  inl, inr,
}
use inventaire.Groups.{
  Membership, Category, admins, members, invited, declined, requested, Group, at, is_user,
  MembershipAction, invite, accept, decline, request, cancel_request, accept_request,
  refuse_request, make_admin, kick, leave, is_in, find_user_group_role, group_membership_action,
}
use inventaire.Groups.Counting.{find?-any, total, is_in-count}
use inventaire.Groups.Roles.{role-count}
use inventaire.Groups.Table.{HasUniqueMembers}
use inventaire.Groups.Requests.{
  user_of, users_ids, wanted, user_is_in_admins, user_is_in_group, user_is_in_requested,
  user_is_in_group_or_requested, membership_validation, members_action, after_hooks,
}

pub includes-user_of :
    (l : List Membership) (user : String) → includes (map user_of l) user ≡ any (is_user user) l
unfolding includes any
includes-user_of [] user = refl
includes-user_of (m ∷ l) user = ground (arith, includes-user_of l user)

-- The user has a membership in one of the categories.
abbrev pub in_some : String → List Category → Group → Bool
in_some user [] g = false
in_some user (c ∷ cs) g = is_in user c g || in_some user cs g

pub includes-users_ids :
    (cs : List Category) (user : String) (g : Group)
    → includes (users_ids cs g) user ≡ in_some user cs g
unfolding users_ids is_in includes
includes-users_ids [] user g = refl
includes-users_ids (c ∷ cs) user g = ground (
  arith,
  includes-append (map user_of (at c g)) (users_ids cs g) user,
  includes-user_of (at c g) user,
  includes-users_ids cs user g,
)

-- The role that the acting user needs, and that of the other user.
abbrev pub Allowed : MembershipAction → Option Category → Option Category → Type 0
Allowed invite user other = (user ≡ some admins) ⊎ (user ≡ some members)
Allowed accept user other = user ≡ some invited
Allowed decline user other = user ≡ some invited
Allowed request user other = (user ≡ none) ⊎ (user ≡ some invited) ⊎ (user ≡ some declined)
Allowed cancel_request user other = user ≡ some requested
Allowed accept_request user other = (user ≡ some admins) × (other ≡ some requested)
Allowed refuse_request user other = (user ≡ some admins) × (other ≡ some requested)
Allowed make_admin user other = user ≡ some admins
Allowed kick user other = (user ≡ some admins) × (other ≢ some admins)
Allowed leave user other = (user ≡ some admins) ⊎ (user ≡ some members)

role_of_is_in :
    (user : String) (c : Category) (g : Group)
    → total user g ≤ 1
    → is_in user c g ≡ true
    → find_user_group_role user g ≡ some c
unfolding total
role_of_is_in user c g u h = ground (arith, role-count user g, (is_in-count user c g).0 h)

no_other_role :
    (user : String) (g : Group)
    → in_some user (admins ∷ members ∷ requested ∷ []) g ≡ false
    → Allowed request (find_user_group_role user g) none
unfolding find_user_group_role
no_other_role user g h = ground arith

wanted_role :
    (user : String) (g : Group)
    → total user g ≤ 1
    → wanted (find? (is_user user) g.invited) ≡ ok tt
    → find_user_group_role user g ≡ some invited
wanted_role user g u h = elim (Option-cases (find? (is_user user) g.invited)) [
  | inl e ↦ absurd (ground arith)
  | inr (m, e) ↦ role_of_is_in user invited g u (unfold is_in in (find?-any user g.invited m e).0)
]

-- Each test of users_lists.ts, as roles.
module _ (user : String) (g : Group) (u : total user g ≤ 1) where
  admin_role : user_is_in_admins user g ≡ true → find_user_group_role user g ≡ some admins
  unfolding user_is_in_admins
  admin_role h =
      role_of_is_in user admins g u (ground (arith, includes-users_ids (admins ∷ []) user g))

  requested_role : user_is_in_requested user g ≡ true → find_user_group_role user g ≡ some requested
  unfolding user_is_in_requested
  requested_role h =
      role_of_is_in user requested g u (ground (arith, includes-users_ids (requested ∷ []) user g))

  group_role : user_is_in_group user g ≡ true → Allowed leave (find_user_group_role user g) none
  unfolding user_is_in_group
  group_role h = ground (
    arith,
    includes-users_ids (admins ∷ members ∷ []) user g,
    role_of_is_in user admins g u,
    role_of_is_in user members g u,
  )

  not_admin_role : user_is_in_admins user g ≡ false → find_user_group_role user g ≢ some admins
  unfolding user_is_in_admins find_user_group_role
  not_admin_role h e = ground (arith, includes-users_ids (admins ∷ []) user g)

  free_role :
      user_is_in_group_or_requested user g ≡ false
      → Allowed request (find_user_group_role user g) none
  unfolding user_is_in_group_or_requested
  free_role h =
      no_other_role user g
        (ground (arith, includes-users_ids (admins ∷ members ∷ requested ∷ []) user g))

-- A request that passes its checks comes from a user whose role allows the action on the other user.
membership_validation-Allowed :
    (action : MembershipAction) (user other : String) (type : Option String) (g : Group)
    → total user g ≤ 1
    → total other g ≤ 1
    → membership_validation action user other type g ≡ ok tt
    → Allowed action (find_user_group_role user g) (find_user_group_role other g)
unfolding membership_validation
membership_validation-Allowed invite user other type g u v h = group_role user g u (ground arith)
membership_validation-Allowed accept user other type g u v h = wanted_role user g u h
membership_validation-Allowed decline user other type g u v h = wanted_role user g u h
membership_validation-Allowed request user other type g u v h = free_role user g u (ground arith)
membership_validation-Allowed cancel_request user other type g u v h =
    requested_role user g u (ground arith)
membership_validation-Allowed accept_request user other type g u v h =
    (admin_role user g u (ground arith), requested_role other g v (ground arith))
membership_validation-Allowed refuse_request user other type g u v h =
    (admin_role user g u (ground arith), requested_role other g v (ground arith))
membership_validation-Allowed make_admin user other type g u v h =
    admin_role user g u (ground arith)
membership_validation-Allowed kick user other type g u v h =
    (admin_role user g u (ground arith), not_admin_role other g v (ground arith))
membership_validation-Allowed leave user other type g u v h = group_role user g u (ground arith)

pub members_action_inv :
    (now : ℕ) (action : MembershipAction) (user other : String) (type : Option String) (g : Group)
    (r : Option Group)
    → members_action now action user other type g ≡ ok r
    → (done : Group × Option MembershipAction) × (membership_validation action user other type g
        ≡ ok tt)
      × (group_membership_action now action user other g ≡ ok done)
      × (r ≡ after_hooks done.1 done.0)
unfolding members_action
members_action_inv now action user other type g r h = ground arith

-- A group request that is accepted, on a group where each user has one membership at most, comes
-- from a user whose role allows the action on the other user.
pub members_action-Allowed :
    (now : ℕ) (action : MembershipAction) (user other : String) (type : Option String) (g : Group)
    (r : Option Group)
    → HasUniqueMembers g
    → members_action now action user other type g ≡ ok r
    → Allowed action (find_user_group_role user g) (find_user_group_role other g)
members_action-Allowed now action user other type g r u h =
    let (_, valid, _, _) = members_action_inv now action user other type g r h in
    membership_validation-Allowed action user other type g (u user) (u other) valid
