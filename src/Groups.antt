-- ===== src/Groups.antt =====
-- Groups (server/types/group.ts, server/models/group.ts): the documents and the functions on one
-- document. The position is left out: no function here reads it.
pub mod Requests
pub mod Counting
pub mod Moves
pub mod Roles
pub mod Table
pub mod Actions
pub mod Completeness
pub mod Rights
pub mod Survival
pub mod Deletion
pub mod Seniority
pub mod Removal
mod Tests
use inventaire.Base.{
  ℕ, String, Bool, true, false, Option, none, some, List, [], ◌∷◌, ◌++◌, map, take, drop, length,
  leb, any, filter, find?, not, ◌||◌, ◌==◌, string_eq, nat_eq, if◌then◌else◌, Outcome, ok, err,
  http, ◌>>=◌,
}

pub record Membership : Type 0 where
  pub user : String
  pub invitor : Option String
  pub timestamp : ℕ

-- GroupMembershipCategory, in the order of groupRoles
pub data Category : Type 0 where
  admins members invited declined requested : Category

pub record Group : Type 0 where
  pub id : String
  pub name : String
  pub slug : String
  pub description : Option String
  pub searchable : Bool
  pub is_open : Bool
  pub picture : Option String
  pub creator : String
  pub created : ℕ
  pub admins : List Membership
  pub members : List Membership
  pub invited : List Membership
  pub declined : List Membership
  pub requested : List Membership

-- group[category], and its assignment
abbrev pub at : Category → Group → List Membership
at admins g = g.admins
at members g = g.members
at invited g = g.invited
at declined g = g.declined
at requested g = g.requested

abbrev pub set_at : Category → List Membership → Group → Group
set_at admins l g = record g { admins = l }
set_at members l g = record g { members = l }
set_at invited l g = record g { invited = l }
set_at declined l g = record g { declined = l }
set_at requested l g = record g { requested = l }

abbrev pub is_user : String → Membership → Bool
is_user user m = m.user == user

abbrev pub create_membership : ℕ → String → Option String → Membership
create_membership now user invitor = record { user = user; invitor = invitor; timestamp = now }

-- createGroupDoc at time `now`; `id` and `slug` are given by the database and by addSlug, and the
-- validation of the attributes is left to the caller.
unfoldable pub create_group_doc :
    ℕ → String → String → String → Option String → Bool → Bool → String → Group
create_group_doc now id slug name description searchable is_open creator = record {
  id = id;
  name = name;
  slug = slug;
  description = description;
  searchable = searchable;
  is_open = is_open;
  picture = none;
  creator = creator;
  created = now;
  admins = create_membership now creator none ∷ [];
  members = [];
  invited = [];
  declined = [];
  requested = [];
}

-- `_.without(list, membership)` for the membership that `_.find` returned: the first of the user.
unfoldable pub remove_first : String → List Membership → List Membership
remove_first user [] = []
remove_first user (m ∷ l) = let rest = remove_first user l in if m.user == user then l else m ∷ rest

abbrev pub push_to : Option Category → Membership → Group → Group
push_to none m g = g
push_to (some c) m g = set_at c (at c g ++ m ∷ []) g

abbrev moved : String → Category → Option Category → Group → Option Membership → Outcome Group
moved user previous new g none = err (http "membership not found" 403)
moved user previous new g (some m) =
    ok (push_to new m (set_at previous (remove_first user (at previous g)) g))

unfoldable pub move_membership : String → Group → Category → Option Category → Outcome Group
move_membership user g previous new =
    moved user previous new g (find? (is_user user) (at previous g))

unfoldable pub is_in : String → Category → Group → Bool
is_in user c g = any (is_user user) (at c g)

-- The role of findUserGroupMembership
unfoldable pub find_user_group_role : String → Group → Option Category
find_user_group_role user g =
    if is_in user admins g
    then some admins
    else if is_in user members g
    then some members
    else if is_in user invited g
    then some invited
    else if is_in user declined g
    then some declined
    else if is_in user requested g
    then some requested
    else none

-- `membership.invitor = invitorId` on the user's first membership
unfoldable pub set_invitor : String → String → List Membership → List Membership
set_invitor user invitor [] = []
set_invitor user invitor (m ∷ l) =
    let rest = set_invitor user invitor l in
    if m.user == user then record m { invitor = some invitor } ∷ l else m ∷ rest

pub data MembershipAction : Type 0 where
  invite accept decline request cancel_request accept_request refuse_request : MembershipAction
  make_admin kick leave : MembershipAction

-- What groupMembershipActions[action] returns: the group, and the action to notify, if any.
abbrev notifying :
    Option MembershipAction → Outcome Group → Outcome (Group × Option MembershipAction)
notifying a m = do g ← m; ok (g, a)

invite_as :
    ℕ → String → String → Group → Option Category → Outcome (Group × Option MembershipAction)
invite_as now invitor user g (some requested) = notifying (some accept_request) (
    move_membership user (record g { requested = set_invitor user invitor g.requested }) requested
      (some members))
invite_as now invitor user g (some declined) = err (http "user already declined the invitation" 400)
invite_as now invitor user g none = ok (
  record g { invited = g.invited ++ create_membership now user (some invitor) ∷ [] },
  some invite,
)
invite_as now invitor user g _ = err (http "membership already exist" 200)

request_as : ℕ → String → Group → Option Category → Outcome (Group × Option MembershipAction)
request_as now user g (some invited) =
    notifying none (move_membership user g invited (some members))
request_as now user g (some declined) =
    notifying none (move_membership user g declined (some members))
request_as now user g none = ok (
  if g.is_open
      then record g { members = g.members ++ create_membership now user none ∷ [] }
      else record g { requested = g.requested ++ create_membership now user none ∷ [] },
  some request,
)
request_as now user g _ = err (http "membership already exist" 200)

-- groupMembershipActions[action](userId, secondaryUserId, group) at time `now`
unfoldable pub group_membership_action :
    ℕ → MembershipAction → String → String → Group → Outcome (Group × Option MembershipAction)
unfolding invite_as request_as
group_membership_action now invite user other g =
    invite_as now user other g (find_user_group_role other g)
group_membership_action now accept user other g =
    notifying (some accept) (move_membership user g invited (some members))
group_membership_action now decline user other g =
    notifying (some decline) (move_membership user g invited (some declined))
group_membership_action now request user other g =
    request_as now user g (find_user_group_role user g)
group_membership_action now cancel_request user other g =
    notifying (some cancel_request) (move_membership user g requested none)
group_membership_action now accept_request user other g =
    notifying (some accept_request) (move_membership other g requested (some members))
group_membership_action now refuse_request user other g =
    notifying (some refuse_request) (move_membership other g requested none)
group_membership_action now make_admin user other g =
    notifying (some make_admin) (move_membership other g members (some admins))
group_membership_action now kick user other g =
    notifying (some kick) (move_membership other g members none)
group_membership_action now leave user other g =
    notifying (some leave)
      (move_membership user g (if is_in user admins g then admins else members) none)
