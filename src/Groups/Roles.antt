-- ===== src/Groups/Roles.antt =====
-- The role of a user in a group in which each user has one membership at most.
use inventaire.Base.{
  ℕ, ◌+◌, ◌≤◌, String, Option, none, some, ltb, ◌≡◌, ◌≢◌, ◌↔◌, arith, ◌==◌, string_eq, eq_iff,
  if◌then◌else◌, ◌&&◌, ok,
}
use inventaire.Groups.{
  Membership, Category, admins, members, invited, declined, requested, Group, push_to,
  move_membership, find_user_group_role,
}
use inventaire.Groups.Counting.{one_if, count, total, category_beq, count-push_to, is_in-count}
use inventaire.Groups.Moves.{count-move_membership, is_in_of_move_membership}

-- The first category, in the order of groupRoles, with a count above 0.
abbrev pub role_by : ℕ → ℕ → ℕ → ℕ → ℕ → Option Category
role_by a m i d r =
    if ltb 0 a
    then some admins
    else if ltb 0 m
    then some members
    else if ltb 0 i
    then some invited
    else if ltb 0 d
    then some declined
    else if ltb 0 r
    then some requested
    else none

pub role-count :
    (v : String) (g : Group)
    → find_user_group_role v g
      ≡ role_by
          (count v admins g)
          (count v members g)
          (count v invited g)
          (count v declined g)
          (count v requested g)
unfolding find_user_group_role
role-count v g = ground (
  arith,
  is_in-count v admins g,
  is_in-count v members g,
  is_in-count v invited g,
  is_in-count v declined g,
  is_in-count v requested g,
)

pub total-role : (v : String) (g : Group) → (find_user_group_role v g ≡ none) ↔ (total v g ≡ 0)
unfolding total
total-role v g = ground (arith, role-count v g)

module _ (user : String) (previous : Category) (new : Option Category) (g g' : Group)
    (done : move_membership user g previous new ≡ ok g') where
  pub total-move_membership : (v : String) → total v g' ≤ total v g
  unfolding total
  total-move_membership v = ground (
    arith,
    count-move_membership user v admins previous new g g' done,
    count-move_membership user v members previous new g g' done,
    count-move_membership user v invited previous new g g' done,
    count-move_membership user v declined previous new g g' done,
    count-move_membership user v requested previous new g g' done,
  )

  count-move_ne : (v : String) → v ≢ user → (c : Category) → count v c g' ≡ count v c g
  count-move_ne v ne c =
      ground (arith, eq_iff user v, count-move_membership user v c previous new g g' done)

  pub role-move_ne : (v : String) → v ≢ user → find_user_group_role v g' ≡ find_user_group_role v g
  role-move_ne v ne =
      let same = count-move_ne v ne in
      cc (
        role-count v g,
        role-count v g',
        same admins,
        same members,
        same invited,
        same declined,
        same requested,
      )

  pub role-move_before : total user g ≤ 1 → find_user_group_role user g ≡ some previous
  unfolding total
  role-move_before h = ground (
    arith,
    role-count user g,
    (is_in-count user previous g).0 (is_in_of_move_membership user g g' previous new done),
  )

  pub role-move_after : total user g ≤ 1 → find_user_group_role user g' ≡ new
  unfolding total
  role-move_after h = ground (
    arith,
    role-count user g',
    eq_iff user user,
    (is_in-count user previous g).0 (is_in_of_move_membership user g g' previous new done),
    count-move_membership user user admins previous new g g' done,
    count-move_membership user user members previous new g g' done,
    count-move_membership user user invited previous new g g' done,
    count-move_membership user user declined previous new g g' done,
    count-move_membership user user requested previous new g g' done,
  )

-- A membership that is added for a user of no role.
module _ (user : String) (c : Category) (m : Membership) (own : m.user ≡ user) (g : Group) where
  count-push :
      (v : String) (d : Category)
      → count v d (push_to (some c) m g) ≡ count v d g + one_if (category_beq c d && (user == v))
  count-push v d = ground (arith, own, count-push_to v d (some c) m g)

  pub total-push :
      (v : String) → total v g ≤ 1 → total user g ≡ 0 → total v (push_to (some c) m g) ≤ 1
  unfolding total
  total-push v h z = ground (
    arith,
    eq_iff user v,
    count-push v admins,
    count-push v members,
    count-push v invited,
    count-push v declined,
    count-push v requested,
  )

  pub role-push_self : total user g ≡ 0 → find_user_group_role user (push_to (some c) m g) ≡ some c
  unfolding total
  role-push_self z = ground (
    arith,
    eq_iff user user,
    role-count user (push_to (some c) m g),
    count-push user admins,
    count-push user members,
    count-push user invited,
    count-push user declined,
    count-push user requested,
  )

  count-push_ne :
      (v : String) → v ≢ user → (d : Category) → count v d (push_to (some c) m g) ≡ count v d g
  count-push_ne v ne d = ground (arith, eq_iff user v, count-push v d)

  pub role-push_ne :
      (v : String)
      → v ≢ user
      → find_user_group_role v (push_to (some c) m g) ≡ find_user_group_role v g
  role-push_ne v ne =
      let same = count-push_ne v ne in
      cc (
        role-count v g,
        role-count v (push_to (some c) m g),
        same admins,
        same members,
        same invited,
        same declined,
        same requested,
      )
