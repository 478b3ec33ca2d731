-- ===== src/Groups/Completeness.antt =====
-- groupMembershipActions (server/models/group.ts): the actions that the table on roles has a step for.
use inventaire.Base.{
  ℕ, String, true, false, Option, none, some, ◌≡◌, ◌∙◌, refl, arith, string_eq, if◌then◌else◌, ok,
}
use inventaire.Groups.{
  invite_as, request_as, notifying, Category, admins, members, invited, declined, requested, Group,
  MembershipAction, invite, accept, decline, request, cancel_request, accept_request,
  refuse_request, make_admin, kick, leave, is_in, move_membership, find_user_group_role,
  group_membership_action,
}
use inventaire.Groups.Moves.{move_membership_total}
use inventaire.Groups.Table.{target, next_role, marked, role-marked}

is_in_of_role :
    (user : String) (c : Category) (g : Group)
    → find_user_group_role user g ≡ some c
    → is_in user c g ≡ true
unfolding find_user_group_role
is_in_of_role user c g h = ground arith

move_total :
    (user : String) (g : Group) (c : Category) (new : Option Category) (n : Option MembershipAction)
    → find_user_group_role user g ≡ some c
    → (r : Group × Option MembershipAction) × (notifying n (move_membership user g c new) ≡ ok r)
move_total user g c new n h =
    let (g', done) = move_membership_total user g c new (is_in_of_role user c g h) in
    ((g', n), rw done)

invite_as_total :
    (now : ℕ) (user other : String) (g : Group) (role : Option Category) (new : Option Category)
    → find_user_group_role other g ≡ role
    → next_role invite g.is_open role ≡ some new
    → (r : Group × Option MembershipAction) × (invite_as now user other g role ≡ ok r)
unfolding invite_as
invite_as_total now user other g (some requested) new e h =
    move_total other (marked other user g) requested (some members) (some accept_request)
      (role-marked other user g other ∙ e)
invite_as_total now user other g none new e h = (_, refl)
invite_as_total now user other g (some admins) new e h = absurd (cc h)
invite_as_total now user other g (some _) new e h = absurd (cc h)

request_as_total :
    (now : ℕ) (user : String) (g : Group) (role : Option Category) (new : Option Category)
    → find_user_group_role user g ≡ role
    → next_role request g.is_open role ≡ some new
    → (r : Group × Option MembershipAction) × (request_as now user g role ≡ ok r)
unfolding request_as
request_as_total now user g (some invited) new e h = move_total user g invited (some members) none e
request_as_total now user g (some declined) new e h =
    move_total user g declined (some members) none e
request_as_total now user g none new e h = (_, refl)
request_as_total now user g (some admins) new e h = absurd (cc h)
request_as_total now user g (some _) new e h = absurd (cc h)

not_admin_of_member :
    (user : String) (g : Group)
    → find_user_group_role user g ≡ some members
    → is_in user admins g ≡ false
unfolding find_user_group_role
not_admin_of_member user g h = ground arith

leave_total :
    (user : String) (g : Group) (role : Option Category) (new : Option Category)
    → find_user_group_role user g ≡ role
    → next_role leave g.is_open role ≡ some new
    → (r : Group × Option MembershipAction) × (notifying
          (some leave)
          (move_membership user g (if is_in user admins g then admins else members) none)
        ≡ ok r)
leave_total user g (some admins) new e h =
    rw (is_in_of_role user admins g e) (move_total user g admins none (some leave) e)
leave_total user g (some members) new e h =
    rw (not_admin_of_member user g e) (move_total user g members none (some leave) e)
leave_total user g none new e h = absurd (cc h)
leave_total user g (some _) new e h = absurd (cc h)

-- The table of roles is complete: an action on a group is made whenever the table has a role for its
-- target.
group_membership_action_total :
    (now : ℕ) (action : MembershipAction) (user other : String) (g : Group) (role : Option Category)
    → next_role action g.is_open (find_user_group_role (target action user other) g) ≡ some role
    → (r : Group × Option MembershipAction) × (group_membership_action now action user other g
        ≡ ok r)
unfolding group_membership_action
group_membership_action_total now invite user other g role h =
    invite_as_total now user other g (find_user_group_role other g) role refl h
group_membership_action_total now request user other g role h =
    request_as_total now user g (find_user_group_role user g) role refl h
group_membership_action_total now accept user other g role h =
    move_total user g invited (some members) (some accept) (ground arith)
group_membership_action_total now decline user other g role h =
    move_total user g invited (some declined) (some decline) (ground arith)
group_membership_action_total now cancel_request user other g role h =
    move_total user g requested none (some cancel_request) (ground arith)
group_membership_action_total now accept_request user other g role h =
    move_total other g requested (some members) (some accept_request) (ground arith)
group_membership_action_total now refuse_request user other g role h =
    move_total other g requested none (some refuse_request) (ground arith)
group_membership_action_total now make_admin user other g role h =
    move_total other g members (some admins) (some make_admin) (ground arith)
group_membership_action_total now kick user other g role h =
    move_total other g members none (some kick) (ground arith)
group_membership_action_total now leave user other g role h =
    leave_total user g (find_user_group_role user g) role refl h
