-- ===== src/Groups/Deletion.antt =====
-- When a request deletes the group: userCanLeaveGroup together with deleteGroupIfEmpty.
use inventaire.Base.{
  ℕ, ◌+◌, ◌<◌, String, true, false, Option, none, some, List, [], ◌∷◌, length, any, nat_eq, ◌≡◌,
  ◌∙◌, refl, sym, ap, arith, string_eq, ok, Bool-cases, inl, inr,
}
use inventaire.Groups.{
  Membership, admins, members, Group, is_user, MembershipAction, invite, leave, remove_first, is_in,
  find_user_group_role, move_membership, group_membership_action,
}
use inventaire.Groups.Moves.{move_membership_inv}
use inventaire.Groups.Table.{notifying_inv}
use inventaire.Groups.Requests.{
  user_can_leave_group, membership_validation, members_action, delete_group_if_empty,
}
use inventaire.Groups.Rights.{members_action_inv, includes-user_of}
use inventaire.Groups.Survival.{IsConsistent, only_leave_hooked, leave_hooked}

length-remove_first :
    (user : String) (l : List Membership)
    → any (is_user user) l ≡ true
    → length (remove_first user l) + 1 ≡ length l
unfolding any remove_first
length-remove_first user [] h = ground arith
length-remove_first user (m ∷ l) h = ground (arith, length-remove_first user l)

deleted_empty : (g : Group) → delete_group_if_empty g ≡ none → length g.admins ≡ 0
unfolding delete_group_if_empty
deleted_empty g h = ground arith

pos_of_any : (user : String) (l : List Membership) → any (is_user user) l ≡ true → 0 < length l
unfolding any
pos_of_any user [] h = ground arith
pos_of_any user (m ∷ l) h = omega arith

-- The group after `leave`, by the role that the user left.
left_admins :
    (now : ℕ) (user other : String) (g : Group) (done : Group × Option MembershipAction)
    → group_membership_action now leave user other g ≡ ok done
    → is_in user admins g ≡ true
    → done.0.admins ≡ remove_first user g.admins
unfolding group_membership_action
left_admins now user other g done h e =
    let moved = notifying_inv _ done.1 (move_membership user g admins none) done.0 (rw e at h) in
    let (_, _, same) = move_membership_inv user g done.0 admins none moved in
    ap (λ (x : Group). x.admins) same

left_members :
    (now : ℕ) (user other : String) (g : Group) (done : Group × Option MembershipAction)
    → group_membership_action now leave user other g ≡ ok done
    → is_in user admins g ≡ false
    → done.0.admins ≡ g.admins
unfolding group_membership_action
left_members now user other g done h e =
    let moved = notifying_inv _ done.1 (move_membership user g members none) done.0 (rw e at h) in
    let (_, _, same) = move_membership_inv user g done.0 members none moved in
    ap (λ (x : Group). x.admins) same

may_leave :
    (user : String) (g : Group)
    → user_can_leave_group user g ≡ true
    → any (is_user user) g.admins ≡ true
    → length g.admins ≡ 1
    → length g.members ≡ 0
unfolding user_can_leave_group
may_leave user g h k e = ground (arith, includes-user_of g.admins user)

leave_valid :
    (user other : String) (type : Option String) (g : Group)
    → membership_validation leave user other type g ≡ ok tt
    → user_can_leave_group user g ≡ true
unfolding membership_validation
leave_valid user other type g h = ground arith

admin_is_in :
    (g : Group) (a : String)
    → find_user_group_role a g ≡ some admins
    → any (is_user a) g.admins ≡ true
unfolding find_user_group_role is_in
admin_is_in g a h = ground arith

-- What a deleted group was: its only admin left, and it had no other member.
pub record WasLast (action : MembershipAction) (user : String) (g : Group) : Type 0 where
  pub left : action ≡ leave
  pub admin : is_in user admins g ≡ true
  pub alone : length g.admins ≡ 1
  pub empty : length g.members ≡ 0

leave-WasLast :
    (now : ℕ) (user other : String) (type : Option String) (g : Group)
    (done : Group × Option MembershipAction)
    → IsConsistent g
    → membership_validation leave user other type g ≡ ok tt
    → group_membership_action now leave user other g ≡ ok done
    → delete_group_if_empty done.0 ≡ none
    → WasLast leave user g
unfolding is_in
leave-WasLast now user other type g done c valid acted deleted =
    let zero_left = deleted_empty done.0 deleted in
    elim (Bool-cases (is_in user admins g)) [
      | inl e ↦
          let one : length g.admins ≡ 1 = omega (
            arith,
            length-remove_first user g.admins e,
            ap (λ l. length l) (left_admins now user other g done acted e),
          ) in
          record {
            left = refl;
            admin = e;
            alone = one;
            empty = may_leave user g (leave_valid user other type g valid) e one;
          }
      | inr e ↦ absurd (
          omega (
            arith,
            pos_of_any c.admin g.admins (admin_is_in g c.admin c.is_admin),
            ap (λ l. length l) (left_members now user other g done acted e),
          ))
    ]

-- A request on a group that has an admin, and where each user has one membership at most, deletes
-- the group only if its only admin leaves and no other member is left.
pub members_action-WasLast :
    (now : ℕ) (action : MembershipAction) (user other : String) (type : Option String) (g : Group)
    → members_action now action user other type g ≡ ok none
    → IsConsistent g
    → WasLast action user g
members_action-WasLast now leave user other type g h c =
    let (done, valid, acted, e) = members_action_inv now leave user other type g none h in
    leave-WasLast now user other type g done c valid acted
      (sym (leave_hooked now user other g done acted) ∙ sym e)
members_action-WasLast now invite user other type g h c =
    let (done, _, acted, e) = members_action_inv now invite user other type g none h in
    absurd (cc (only_leave_hooked now invite user other g done (λ e. cc) acted, e))
members_action-WasLast now action user other type g h c =
    let (done, _, acted, e) = members_action_inv now action user other type g none h in
    absurd (cc (only_leave_hooked now action user other g done (λ e. cc) acted, e))
