-- ===== src/Groups/Moves.antt =====
-- moveMembership of server/models/group.ts: what it does to the number of a user's memberships in
-- each category.
use inventaire.Base.{
  ◌+◌, String, true, Option, some, List, [], ◌∷◌, any, find?, ◌≡◌, ap, arith, ◌==◌, string_eq,
  Bool-cases, inl, inr, ◌&&◌, ok,
}
use inventaire.Groups.{
  Membership, Category, admins, members, invited, declined, requested, Group, at, set_at, is_user,
  push_to, remove_first, is_in, move_membership,
}
use inventaire.Groups.Counting.{
  one_if, count, category_beq, is_category, count_in-remove_first, count-push_to, find?-any,
}

pub move_membership_inv :
    (user : String) (g g' : Group) (previous : Category) (new : Option Category)
    → move_membership user g previous new ≡ ok g'
    → (m : Membership) × (find? (is_user user) (at previous g) ≡ some m)
      × (g' ≡ push_to new m (set_at previous (remove_first user (at previous g)) g))
unfolding move_membership
move_membership_inv user g g' previous new h = ground arith

count-remove_first :
    (user v : String) (c previous : Category) (g : Group)
    → any (is_user user) (at previous g) ≡ true
    → count v c (set_at previous (remove_first user (at previous g)) g)
        + one_if (category_beq previous c && (user == v))
      ≡ count v c g
unfolding count
count-remove_first user v c admins g h = ground (arith, count_in-remove_first user v g.admins h)
count-remove_first user v c members g h = ground (arith, count_in-remove_first user v g.members h)
count-remove_first user v c invited g h = ground (arith, count_in-remove_first user v g.invited h)
count-remove_first user v c declined g h = ground (arith, count_in-remove_first user v g.declined h)
count-remove_first user v c requested g h =
    ground (arith, count_in-remove_first user v g.requested h)

-- The moved user has one membership less in the old category and one more in the new one; no other
-- count changes.
pub count-move_membership :
    (user v : String) (c previous : Category) (new : Option Category) (g g' : Group)
    → move_membership user g previous new ≡ ok g'
    → count v c g' + one_if (category_beq previous c && (user == v))
      ≡ count v c g + one_if (is_category new c && (user == v))
count-move_membership user v c previous new g g' h =
    let (m, found, e) = move_membership_inv user g g' previous new h in
    let (present, same) = find?-any user (at previous g) m found in
    let removed = set_at previous (remove_first user (at previous g)) g in
    omega (
      arith,
      ap (count v c) e,
      count-push_to v c new m removed,
      count-remove_first user v c previous g present,
      ap (λ x. one_if (is_category new c && (x == v))) same,
    )

any-find? :
    (user : String) (l : List Membership)
    → any (is_user user) l ≡ true
    → (m : Membership) × (find? (is_user user) l ≡ some m)
unfolding any find?
any-find? user [] h = absurd (ground arith)
any-find? user (x ∷ l) h = elim (Bool-cases (x.user == user)) [
  | inl e ↦ (x, rw e)
  | inr e ↦ let (m, f) = any-find? user l (rw e at h) in (m, rw e f)
]

-- A move succeeds for every user who is in the old category.
pub move_membership_total :
    (user : String) (g : Group) (previous : Category) (new : Option Category)
    → is_in user previous g ≡ true
    → (g' : Group) × (move_membership user g previous new ≡ ok g')
unfolding is_in move_membership
move_membership_total user g previous new h =
    let (m, f) = any-find? user (at previous g) h in
    (push_to new m (set_at previous (remove_first user (at previous g)) g), rw f)

pub is_in_of_move_membership :
    (user : String) (g g' : Group) (previous : Category) (new : Option Category)
    → move_membership user g previous new ≡ ok g'
    → is_in user previous g ≡ true
unfolding is_in
is_in_of_move_membership user g g' previous new h =
    let (m, found, _) = move_membership_inv user g g' previous new h in
    (find?-any user (at previous g) m found).0
