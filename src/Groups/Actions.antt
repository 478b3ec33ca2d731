-- ===== src/Groups/Actions.antt =====
-- groupMembershipActions (server/models/group.ts) and the table on roles.
use inventaire.Base.{
  ℕ, String, Option, none, some, ◌≡◌, ◌∙◌, refl, subst, Bool-cases, inl, inr, arith, string_eq, ok,
}
use inventaire.Groups.{
  invite_as, request_as, notifying, Category, admins, members, invited, declined, requested, Group,
  push_to, MembershipAction, invite, accept, decline, request, cancel_request, accept_request,
  refuse_request, make_admin, kick, leave, is_in, move_membership, find_user_group_role,
  group_membership_action, create_membership,
}
use inventaire.Groups.Roles.{role-move_before}
use inventaire.Groups.Table.{
  target, next_role, HasUniqueMembers, Changes, move-Changes, push-Changes, notifying_inv, marked,
  role-marked, marked_unique,
}

invite_as-Changes :
    (now : ℕ) (user other : String) (g g' : Group) (role : Option Category)
    (n : Option MembershipAction)
    → HasUniqueMembers g
    → find_user_group_role other g ≡ role
    → invite_as now user other g role ≡ ok (g', n)
    → (new : Option Category) × (next_role invite g.is_open role ≡ some new)
      × Changes other new g g'
unfolding invite_as
invite_as-Changes now user other g g' (some requested) n unique e h =
    let c =
      move-Changes other (marked other user g) g' requested (some members)
        (marked_unique other user g unique) (notifying_inv _ n _ g' h) in
    (
      some members,
      refl,
      record {
        own = c.own;
        others = λ v ne. c.others v ne ∙ role-marked other user g v;
        unique = c.unique;
      },
    )
invite_as-Changes now user other g g' none n unique e h = (
  some invited,
  refl,
  subst (Changes other (some invited) g) (cc h)
      (push-Changes other g invited (create_membership now other (some user)) unique refl e),
)
invite_as-Changes now user other g g' (some declined) n unique e h = cc
invite_as-Changes now user other g g' (some admins) n unique e h = cc
invite_as-Changes now user other g g' (some _) n unique e h = cc

request_as-Changes :
    (now : ℕ) (user : String) (g g' : Group) (role : Option Category) (n : Option MembershipAction)
    → HasUniqueMembers g
    → find_user_group_role user g ≡ role
    → request_as now user g role ≡ ok (g', n)
    → (new : Option Category) × (next_role request g.is_open role ≡ some new)
      × Changes user new g g'
unfolding request_as
request_as-Changes now user g g' (some invited) n unique e h = (
  some members,
  refl,
  move-Changes user g g' invited (some members) unique (notifying_inv _ n _ g' h),
)
request_as-Changes now user g g' (some declined) n unique e h = (
  some members,
  refl,
  move-Changes user g g' declined (some members) unique (notifying_inv _ n _ g' h),
)
request_as-Changes now user g g' none n unique e h = elim (Bool-cases g.is_open) [
  | inl o ↦
      let same : push_to (some members) (create_membership now user none) g ≡ g' = ground arith in
      (
        some members,
        rw o,
        subst (Changes user (some members) g) same
            (push-Changes user g members (create_membership now user none) unique refl e),
      )
  | inr o ↦
      let same : push_to (some requested) (create_membership now user none) g ≡ g' = ground arith in
      (
        some requested,
        rw o,
        subst (Changes user (some requested) g) same
            (push-Changes user g requested (create_membership now user none) unique refl e),
      )
]
request_as-Changes now user g g' (some admins) n unique e h = cc
request_as-Changes now user g g' (some _) n unique e h = cc

-- A move out of a category, as a step of the table.
moved-Changes :
    (user : String) (g g' : Group) (previous : Category) (new : Option Category)
    (n n' : Option MembershipAction)
    → HasUniqueMembers g
    → notifying n (move_membership user g previous new) ≡ ok (g', n')
    → (find_user_group_role user g ≡ some previous) × Changes user new g g'
moved-Changes user g g' previous new n n' unique h =
    let done = notifying_inv n n' (move_membership user g previous new) g' h in
    (
      role-move_before user previous new g g' done (unique user),
      move-Changes user g g' previous new unique done,
    )

-- An action that is made on a group where each user has one membership at most gives its target the
-- role of the table of roles, and keeps every other user's role; each user still has one membership
-- at most.
pub group_membership_action-Changes :
    (now : ℕ) (action : MembershipAction) (user other : String) (g g' : Group)
    (n : Option MembershipAction)
    → HasUniqueMembers g
    → group_membership_action now action user other g ≡ ok (g', n)
    → (role : Option Category) × (next_role action g.is_open
          (find_user_group_role (target action user other) g)
        ≡ some role)
      × Changes (target action user other) role g g'
unfolding group_membership_action
group_membership_action-Changes now invite user other g g' n u h =
    invite_as-Changes now user other g g' (find_user_group_role other g) n u refl h
group_membership_action-Changes now request user other g g' n u h =
    request_as-Changes now user g g' (find_user_group_role user g) n u refl h
group_membership_action-Changes now accept user other g g' n u h =
    let (before, c) = moved-Changes user g g' invited (some members) _ n u h in
    (some members, rw before, c)
group_membership_action-Changes now decline user other g g' n u h =
    let (before, c) = moved-Changes user g g' invited (some declined) _ n u h in
    (some declined, rw before, c)
group_membership_action-Changes now cancel_request user other g g' n u h =
    let (before, c) = moved-Changes user g g' requested none _ n u h in (none, rw before, c)
group_membership_action-Changes now accept_request user other g g' n u h =
    let (before, c) = moved-Changes other g g' requested (some members) _ n u h in
    (some members, rw before, c)
group_membership_action-Changes now refuse_request user other g g' n u h =
    let (before, c) = moved-Changes other g g' requested none _ n u h in (none, rw before, c)
group_membership_action-Changes now make_admin user other g g' n u h =
    let (before, c) = moved-Changes other g g' members (some admins) _ n u h in
    (some admins, rw before, c)
group_membership_action-Changes now kick user other g g' n u h =
    let (before, c) = moved-Changes other g g' members none _ n u h in (none, rw before, c)
group_membership_action-Changes now leave user other g g' n u h =
    elim (Bool-cases (is_in user admins g)) [
      | inl e ↦
          let (before, c) = moved-Changes user g g' admins none _ n u (rw e at h) in
          (none, rw before, c)
      | inr e ↦
          let (before, c) = moved-Changes user g g' members none _ n u (rw e at h) in
          (none, rw before, c)
    ]
