-- ===== src/Groups/Tests.antt =====
-- A group of two users that a third asks to join, and the theorems at these inputs.
use inventaire.Base.{
  String, ◌≡◌, refl, true, false, arith, ok, err, Outcome, some, none, [], ◌∷◌, ◌==◌, string_eq,
  eq_iff, http, any, find?, filter, includes, Option,
}
use inventaire.Groups.{
  Category, Group, MembershipAction, accept_request, leave, kick, create_membership,
  move_membership, group_membership_action, find_user_group_role, is_in, remove_first, set_invitor,
  create_group_doc, invite_as, request_as,
}
use inventaire.Groups.Requests.{
  users_ids, user_is_in_admins, user_is_in_group, user_is_in_requested,
  user_is_in_group_or_requested, user_can_leave_group, membership_validation, members_action,
  after_hooks, delete_group_if_empty,
}
use inventaire.Groups.Removal.{
  remove_user_from_group_doc, promote_members, sort_by_timestamp, insert_by_timestamp, without_user,
}
use inventaire.Groups.Counting.{count_in, total, count}
use inventaire.Groups.Table.{HasUniqueMembers, Changes, next_role}
use inventaire.Groups.Actions.{group_membership_action-Changes}
use inventaire.Groups.Rights.{Allowed, members_action-Allowed}
use inventaire.Groups.Survival.{IsConsistent, members_action-IsConsistent}
use inventaire.Groups.Deletion.{WasLast, members_action-WasLast}

abbrev founded : Group
founded = create_group_doc 1 "g" "readers" "readers" none true false "ann"

abbrev readers : Group
readers = record founded {
  members = create_membership 5 "eve" none ∷ [];
  requested = create_membership 7 "bob" none ∷ [];
}

server : Unit {0}
unfolding create_group_doc group_membership_action invite_as request_as move_membership
    find_user_group_role is_in remove_first set_invitor users_ids user_is_in_admins user_is_in_group
    user_is_in_requested user_is_in_group_or_requested user_can_leave_group membership_validation
    members_action after_hooks delete_group_if_empty remove_user_from_group_doc promote_members
    sort_by_timestamp insert_by_timestamp without_user any find? filter includes
server = tt

abbrev or_readers : Outcome (Option Group) → Group
or_readers (ok (some g)) = g
or_readers _ = readers

abbrev joined : Group
joined = or_readers (members_action 9 accept_request "ann" "bob" none readers)

joined_ok : members_action 9 accept_request "ann" "bob" none readers ≡ ok (some joined)
unfolding server
joined_ok = refl

refusals :
    (members_action 9 accept_request "eve" "bob" none readers ≡ err (http "user is not admin" 403))
    × (members_action 9 kick "ann" "ann" none readers
        ≡ err (http "target user is also a group admin" 403))
    × (members_action 9 leave "ann" "ann" none readers
        ≡ err (http "the last group admin can't leave before naming another admin" 403))
unfolding server
refusals = (refl, refl, refl)

one_name : (a b v : String) → (a == b) ≡ false → (a == v) ≡ true → (b == v) ≡ false
one_name a b v h k = ground (arith, eq_iff a b, eq_iff a v, eq_iff b v)

readers-HasUniqueMembers : HasUniqueMembers readers
unfolding server total count count_in
readers-HasUniqueMembers v =
    ground
      (arith, one_name "ann" "eve" v refl, one_name "ann" "bob" v refl, one_name "eve" "bob" v refl)

founded-HasUniqueMembers : HasUniqueMembers founded
unfolding server total count count_in
founded-HasUniqueMembers v = ground arith

readers-IsConsistent : IsConsistent readers
unfolding server
readers-IsConsistent = record { unique = readers-HasUniqueMembers; admin = "ann"; is_admin = refl }

founded-IsConsistent : IsConsistent founded
unfolding server
founded-IsConsistent = record { unique = founded-HasUniqueMembers; admin = "ann"; is_admin = refl }

members_action-IsConsistent_example : IsConsistent joined
members_action-IsConsistent_example =
    members_action-IsConsistent 9 accept_request "ann" "bob" none readers joined joined_ok
      readers-IsConsistent

members_action-Allowed_example :
    Allowed accept_request (find_user_group_role "ann" readers) (find_user_group_role "bob" readers)
members_action-Allowed_example =
    members_action-Allowed 9 accept_request "ann" "bob" none readers (some joined)
      readers-HasUniqueMembers joined_ok

founder_leaves : members_action 9 leave "ann" "ann" none founded ≡ ok none
unfolding server
founder_leaves = refl

members_action-WasLast_example : WasLast leave "ann" founded
members_action-WasLast_example =
    members_action-WasLast 9 leave "ann" "ann" none founded founder_leaves founded-IsConsistent

abbrev or_pair : Outcome (Group × Option MembershipAction) → Group × Option MembershipAction
or_pair (ok r) = r
or_pair (err _) = (readers, none)

abbrev left : Group × Option MembershipAction
left = or_pair (group_membership_action 9 leave "eve" "eve" readers)

left_ok : group_membership_action 9 leave "eve" "eve" readers ≡ ok (left.0, left.1)
unfolding server
left_ok = refl

group_membership_action-Changes_example :
    (role : Option Category) × (next_role leave readers.is_open (find_user_group_role "eve" readers)
      ≡ some role)
    × Changes "eve" role readers left.0
group_membership_action-Changes_example =
    group_membership_action-Changes 9 leave "eve" "eve" readers left.0 left.1
      readers-HasUniqueMembers left_ok
