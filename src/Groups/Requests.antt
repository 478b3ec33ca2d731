-- ===== src/Groups/Requests.antt =====
-- The group requests (server/controllers/groups/members_actions.ts and lib/membership_validations.ts,
-- lib/users_lists.ts, lib/leave_groups.ts, lib/group_action.ts, lib/membership_update_hooks.ts): the
-- right to act is checked on the group, the action is made and saved, and a group that its last
-- admin left is deleted. The group is the one document that the request reads and writes.
use inventaire.Base.{
  ℕ, String, Bool, true, false, Option, none, some, List, [], ◌∷◌, ◌++◌, map, length, ltb, nat_beq,
  find?, includes, not, ◌&&◌, ◌==◌, string_eq, if◌then◌else◌, Outcome, ok, err, http, require,
  ◌>>=◌, ◌>>◌,
}
use inventaire.Groups.{
  Group, Membership, Category, admins, members, requested, at, is_user, MembershipAction, invite,
  accept, decline, request, cancel_request, accept_request, refuse_request, make_admin, kick, leave,
  group_membership_action,
}

abbrev pub user_of : Membership → String
user_of m = m.user

-- getUsersIdsByAgregatedCategories
unfoldable pub users_ids : List Category → Group → List String
users_ids [] g = []
users_ids (c ∷ cs) g = map user_of (at c g) ++ users_ids cs g

unfoldable pub user_is_in_admins : String → Group → Bool
user_is_in_admins user g = includes (users_ids (admins ∷ []) g) user

unfoldable pub user_is_in_group : String → Group → Bool
user_is_in_group user g = includes (users_ids (admins ∷ members ∷ []) g) user

unfoldable pub user_is_in_requested : String → Group → Bool
user_is_in_requested user g = includes (users_ids (requested ∷ []) g) user

unfoldable pub user_is_in_group_or_requested : String → Group → Bool
user_is_in_group_or_requested user g =
    includes (users_ids (admins ∷ members ∷ requested ∷ []) g) user

-- userCanLeaveGroup
unfoldable pub user_can_leave_group : String → Group → Bool
user_can_leave_group user g =
    if not (includes (map user_of g.admins) user)
    then true
    else if nat_beq (length g.admins) 1 && ltb 0 (length g.members)
    then false
    else true

-- validateUserExistance; the argument is the type of the user's document, if there is one.
unfoldable pub validate_user_existance : Option String → Outcome (Unit {0})
validate_user_existance none = err (http "user not found" 404)
validate_user_existance (some type) = require (type == "user") "invalid user type" 400

-- getInvitedUser: findMembership(userId, group, 'invited', true)
abbrev pub wanted : Option Membership → Outcome (Unit {0})
wanted none = err (http "membership not found" 403)
wanted (some m) = ok tt

abbrev validate_admin_rights : String → Group → Outcome (Unit {0})
validate_admin_rights user g = require (user_is_in_admins user g) "user is not a group admin" 403

abbrev validate_request_handling : String → String → Group → Outcome (Unit {0})
validate_request_handling user other g = do
  require (user_is_in_admins user g) "user is not admin" 403
  require (user_is_in_requested other g) "request not found" 401

-- membershipValidations[action](reqUserId, groupId, userId); `type` is that of the other user's
-- document, which only `invite` reads.
unfoldable pub membership_validation :
    MembershipAction → String → String → Option String → Group → Outcome (Unit {0})
membership_validation invite user other type g = do
  validate_user_existance type
  require (user_is_in_group user g) "invitor isn't in group" 403
membership_validation accept user other type g = wanted (find? (is_user user) g.invited)
membership_validation decline user other type g = wanted (find? (is_user user) g.invited)
membership_validation request user other type g =
    require (not (user_is_in_group_or_requested user g)) "user is already in group" 403
membership_validation cancel_request user other type g =
    require (user_is_in_requested user g) "request not found" 403
membership_validation accept_request user other type g = validate_request_handling user other g
membership_validation refuse_request user other type g = validate_request_handling user other g
membership_validation make_admin user other type g = validate_admin_rights user g
membership_validation kick user other type g = do
  validate_admin_rights user g
  require (not (user_is_in_admins other g)) "target user is also a group admin" 403
membership_validation leave user other type g = do
  require (user_is_in_group user g) "user is not in the group" 403
  require (user_can_leave_group user g)
      "the last group admin can't leave before naming another admin" 403

-- deleteGroupIfEmpty, the listener of group:leave; `none` is a deleted group.
unfoldable pub delete_group_if_empty : Group → Option Group
delete_group_if_empty g = if nat_beq (length g.admins) 0 then none else some g

unfoldable pub after_hooks : Option MembershipAction → Group → Option Group
after_hooks (some leave) g = delete_group_if_empty g
after_hooks _ g = some g

-- The controller of members_actions.ts with groupAction
unfoldable pub members_action :
    ℕ → MembershipAction → String → String → Option String → Group → Outcome (Option Group)
members_action now action user other type g = do
  membership_validation action user other type g
  result ← group_membership_action now action user other g
  ok (after_hooks result.1 result.0)
