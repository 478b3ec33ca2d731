-- ===== src/Groups/Survival.antt =====
-- The group that a group request leaves (server/controllers/groups/members_actions.ts), as an
-- invariant: who its admins are, and how many memberships a user has.
use inventaire.Base.{
  ℕ, String, Bool, Option, some, List, [], ◌∷◌, any, nat_eq, ◌≡◌, ◌≢◌, ◌∙◌, refl, sym, ap, subst,
  arith, string_eq, eq_iff, ok,
}
use inventaire.Groups.{
  invite_as, request_as, Membership, Category, admins, Group, MembershipAction, invite, leave,
  is_in, find_user_group_role, group_membership_action,
}
use inventaire.Groups.Table.{HasUniqueMembers, next_role}
use inventaire.Groups.Actions.{group_membership_action-Changes}
use inventaire.Groups.Requests.{members_action, after_hooks, delete_group_if_empty}
use inventaire.Groups.Rights.{members_action_inv}

pub record IsConsistent (g : Group) : Type 0 where
  pub unique : HasUniqueMembers g
  pub admin : String
  pub is_admin : find_user_group_role admin g ≡ some admins

first_is_admin :
    (g : Group) (m : Membership) (l : List Membership)
    → g.admins ≡ m ∷ l
    → find_user_group_role m.user g ≡ some admins
unfolding find_user_group_role is_in any
first_is_admin g m l h = ground (arith, eq_iff m.user m.user)

-- A group that the hook of group:leave spares has an admin.
spared_has_admin :
    (g g' : Group) (l : List Membership)
    → g.admins ≡ l
    → delete_group_if_empty g ≡ some g'
    → (g ≡ g') × (a : String) × (find_user_group_role a g ≡ some admins)
unfolding delete_group_if_empty
spared_has_admin g g' [] e h = absurd (ground arith)
spared_has_admin g g' (m ∷ l) e h = (ground arith, m.user, first_is_admin g m l e)

-- Only leaving takes the role from an admin.
kept_admin :
    (action : MembershipAction) (is_open : Bool) (role : Option Category)
    → action ≢ leave
    → next_role action is_open (some admins) ≢ some role
kept_admin action is_open role h e = ground arith

-- The hook of group:leave acts on no other action.
pub only_leave_hooked :
    (now : ℕ) (action : MembershipAction) (user other : String) (g : Group)
    (done : Group × Option MembershipAction)
    → action ≢ leave
    → group_membership_action now action user other g ≡ ok done
    → after_hooks done.1 done.0 ≡ some done.0
unfolding group_membership_action invite_as request_as after_hooks
only_leave_hooked now leave user other g done k h = absurd (k refl)
only_leave_hooked now _ user other g done k h = ground arith

pub leave_hooked :
    (now : ℕ) (user other : String) (g : Group) (done : Group × Option MembershipAction)
    → group_membership_action now leave user other g ≡ ok done
    → after_hooks done.1 done.0 ≡ delete_group_if_empty done.0
unfolding group_membership_action after_hooks
leave_hooked now user other g done h = ground arith

stays_IsConsistent :
    (now : ℕ) (action : MembershipAction) (user other : String) (g g' : Group)
    (n : Option MembershipAction)
    → action ≢ leave
    → IsConsistent g
    → group_membership_action now action user other g ≡ ok (g', n)
    → IsConsistent g'
stays_IsConsistent now action user other g g' n k c h =
    let (role, step, changes) =
      group_membership_action-Changes now action user other g g' n c.unique h in
    record {
      unique = changes.unique;
      admin = c.admin;
      is_admin =
          changes.others c.admin (λ e. kept_admin action g.is_open role k (
            subst (λ x. next_role action g.is_open x ≡ some role)
              (ap (λ x. find_user_group_role x g) (sym e) ∙ c.is_admin) step))
          ∙ c.is_admin;
    }

leave-IsConsistent :
    (now : ℕ) (user other : String) (g g' : Group) (done : Group × Option MembershipAction)
    → IsConsistent g
    → group_membership_action now leave user other g ≡ ok done
    → delete_group_if_empty done.0 ≡ some g'
    → IsConsistent g'
leave-IsConsistent now user other g g' done c h k =
    let (_, _, changes) =
      group_membership_action-Changes now leave user other g done.0 done.1 c.unique h in
    let (same, a, is_admin) = spared_has_admin done.0 g' done.0.admins refl k in
    subst IsConsistent same (record { unique = changes.unique; admin = a; is_admin = is_admin })

other-IsConsistent :
    (now : ℕ) (action : MembershipAction) (user other : String) (g g' : Group)
    (done : Group × Option MembershipAction)
    → action ≢ leave
    → IsConsistent g
    → group_membership_action now action user other g ≡ ok done
    → some g' ≡ after_hooks done.1 done.0
    → IsConsistent g'
other-IsConsistent now action user other g g' done k c h e =
    let same : done.0 ≡ g' = cc (e, only_leave_hooked now action user other g done k h) in
    subst IsConsistent same (stays_IsConsistent now action user other g done.0 done.1 k c h)

-- A group that a request leaves in place has an admin, and each user has one membership at most, if
-- it was so before.
pub members_action-IsConsistent :
    (now : ℕ) (action : MembershipAction) (user other : String) (type : Option String)
    (g g' : Group)
    → members_action now action user other type g ≡ ok (some g')
    → IsConsistent g
    → IsConsistent g'
members_action-IsConsistent now leave user other type g g' h c =
    let (done, _, acted, e) = members_action_inv now leave user other type g (some g') h in
    leave-IsConsistent now user other g g' done c acted
      (sym (leave_hooked now user other g done acted) ∙ sym e)
members_action-IsConsistent now invite user other type g g' h c =
    let (done, _, acted, e) = members_action_inv now invite user other type g (some g') h in
    other-IsConsistent now invite user other g g' done (λ e. cc) c acted e
members_action-IsConsistent now action user other type g g' h c =
    let (done, _, acted, e) = members_action_inv now action user other type g (some g') h in
    other-IsConsistent now action user other g g' done (λ e. cc) c acted e
