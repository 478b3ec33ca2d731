-- ===== src/Groups/Table.antt =====
-- A table on the roles of a group, and the changes of a role that moveMembership
-- (server/models/group.ts) makes.
use inventaire.Base.{
  ◌≤◌, String, Bool, Option, none, some, ◌≡◌, ◌≢◌, refl, Outcome, arith, string_eq, if◌then◌else◌,
  ok,
}
use native.Mathlib.Nat.{le_trans}
use inventaire.Groups.{
  notifying, Membership, Category, admins, members, invited, declined, requested, Group, push_to,
  MembershipAction, invite, accept, decline, request, cancel_request, accept_request,
  refuse_request, make_admin, kick, leave, move_membership, find_user_group_role, set_invitor,
}
use inventaire.Groups.Counting.{count, total, count_in-set_invitor}
use inventaire.Groups.Roles.{
  role-count, total-role, role-move_after, role-move_ne, total-move_membership, role-push_self,
  role-push_ne, total-push,
}

-- Whose membership the action is about.
abbrev pub target : MembershipAction → String → String → String
target invite user other = other
target accept_request user other = other
target refuse_request user other = other
target make_admin user other = other
target kick user other = other
target _ user other = user

-- The role that the action gives to a target of a role, in a group that is open or not; `none` where
-- the action is refused.
abbrev pub next_role : MembershipAction → Bool → Option Category → Option (Option Category)
next_role invite is_open (some requested) = some (some members)
next_role invite is_open none = some (some invited)
next_role accept is_open (some invited) = some (some members)
next_role decline is_open (some invited) = some (some declined)
next_role request is_open (some invited) = some (some members)
next_role request is_open (some declined) = some (some members)
next_role request is_open none = some (some (if is_open then members else requested))
next_role cancel_request is_open (some requested) = some none
next_role accept_request is_open (some requested) = some (some members)
next_role refuse_request is_open (some requested) = some none
next_role make_admin is_open (some members) = some (some admins)
next_role kick is_open (some members) = some none
next_role leave is_open (some admins) = some none
next_role leave is_open (some members) = some none
next_role _ is_open _ = none

abbrev pub HasUniqueMembers : Group → Type 0
HasUniqueMembers g = (v : String) → total v g ≤ 1

-- What a change of one user's role is: the new role, and everyone else's role as it was.
pub record Changes (user : String) (role : Option Category) (g g' : Group) : Type 0 where
  pub own : find_user_group_role user g' ≡ role
  pub others : (v : String) → v ≢ user → find_user_group_role v g' ≡ find_user_group_role v g
  pub unique : HasUniqueMembers g'

pub move-Changes :
    (user : String) (g g' : Group) (previous : Category) (new : Option Category)
    → HasUniqueMembers g
    → move_membership user g previous new ≡ ok g'
    → Changes user new g g'
move-Changes user g g' previous new unique done = record {
  own = role-move_after user previous new g g' done (unique user);
  others = role-move_ne user previous new g g' done;
  unique = λ v. le_trans (total-move_membership user previous new g g' done v) (unique v);
}

pub push-Changes :
    (user : String) (g : Group) (c : Category) (m : Membership)
    → HasUniqueMembers g
    → m.user ≡ user
    → find_user_group_role user g ≡ none
    → Changes user (some c) g (push_to (some c) m g)
push-Changes user g c m unique own free =
    let z = (total-role user g).0 free in
    record {
      own = role-push_self user c m own g z;
      others = role-push_ne user c m own g;
      unique = λ v. total-push user c m own g v (unique v) z;
    }

pub notifying_inv :
    (n n' : Option MembershipAction) (m : Outcome Group) (g' : Group)
    → notifying n m ≡ ok (g', n')
    → m ≡ ok g'
notifying_inv n n' m g' h = ground arith

-- Recording the invitor changes no role.
module _ (user invitor : String) (g : Group) where
  abbrev pub marked : Group
  marked = record g { requested = set_invitor user invitor g.requested }

  count-marked : (v : String) (c : Category) → count v c marked ≡ count v c g
  unfolding count
  count-marked v requested = count_in-set_invitor user invitor v g.requested
  count-marked v admins = refl
  count-marked v _ = refl

  pub role-marked : (v : String) → find_user_group_role v marked ≡ find_user_group_role v g
  role-marked v = cc (
    role-count v marked,
    role-count v g,
    count-marked v admins,
    count-marked v members,
    count-marked v invited,
    count-marked v declined,
    count-marked v requested,
  )

  pub marked_unique : HasUniqueMembers g → HasUniqueMembers marked
  unfolding total
  marked_unique h v = omega (
    arith,
    h v,
    count-marked v admins,
    count-marked v members,
    count-marked v invited,
    count-marked v declined,
    count-marked v requested,
  )
