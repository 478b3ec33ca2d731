-- ===== src/Groups/Counting.antt =====
-- How often a user stands in a list of memberships, and in a category of a group.
use inventaire.Base.{
  ℕ, ◌+◌, ◌<◌, String, Bool, true, false, Option, none, some, List, [], ◌∷◌, ◌++◌, any, find?, ◌&&◌,
  ◌≡◌, ◌↔◌, refl, arith, ◌==◌, string_eq, eq_iff, if◌then◌else◌,
}
use inventaire.Groups.{
  Membership, Category, admins, members, invited, declined, requested, Group, at, set_at, is_user,
  push_to, remove_first, set_invitor, is_in,
}

abbrev pub one_if : Bool → ℕ
one_if true = 1
one_if false = 0

unfoldable pub count_in : String → List Membership → ℕ
count_in user [] = 0
count_in user (m ∷ l) = one_if (m.user == user) + count_in user l

pub count_in-append :
    (user : String) (l k : List Membership)
    → count_in user (l ++ k) ≡ count_in user l + count_in user k
unfolding count_in
count_in-append user [] k = omega arith
count_in-append user (m ∷ l) k = omega (arith, count_in-append user l k)

pub count_in-push :
    (user : String) (l : List Membership) (m : Membership)
    → count_in user (l ++ m ∷ []) ≡ count_in user l + one_if (m.user == user)
unfolding count_in
count_in-push user l m = omega (arith, count_in-append user l (m ∷ []))

pub any-count_in :
    (user : String) (l : List Membership) → (any (is_user user) l ≡ true) ↔ (0 < count_in user l)
unfolding any count_in
any-count_in user [] = ground arith
any-count_in user (m ∷ l) = ground (arith, any-count_in user l)

pub find?-any :
    (user : String) (l : List Membership) (m : Membership)
    → find? (is_user user) l ≡ some m
    → (any (is_user user) l ≡ true) × (m.user ≡ user)
unfolding any find?
find?-any user [] m h = ground arith
find?-any user (x ∷ l) m h = ground (arith, find?-any user l m, eq_iff x.user user)

pub count_in-remove_first :
    (user v : String) (l : List Membership)
    → any (is_user user) l ≡ true
    → count_in v (remove_first user l) + one_if (user == v) ≡ count_in v l
unfolding any count_in remove_first
count_in-remove_first user v [] h = ground arith
count_in-remove_first user v (m ∷ l) h =
    ground
      (arith, count_in-remove_first user v l, eq_iff m.user user, eq_iff m.user v, eq_iff user v)

pub count_in-set_invitor :
    (user invitor v : String) (l : List Membership)
    → count_in v (set_invitor user invitor l) ≡ count_in v l
unfolding count_in set_invitor
count_in-set_invitor user invitor v [] = refl
count_in-set_invitor user invitor v (m ∷ l) = ground (arith, count_in-set_invitor user invitor v l)

abbrev pub category_beq : Category → Category → Bool
category_beq admins admins = true
category_beq members members = true
category_beq invited invited = true
category_beq declined declined = true
category_beq requested requested = true
category_beq _ _ = false

abbrev pub is_category : Option Category → Category → Bool
is_category none c = false
is_category (some d) c = category_beq d c

unfoldable pub count : String → Category → Group → ℕ
count user c g = count_in user (at c g)

unfoldable pub total : String → Group → ℕ
total user g =
    count user admins g
    + count user members g
    + count user invited g
    + count user declined g
    + count user requested g

pub at-set_at :
    (c d : Category) (l : List Membership) (g : Group)
    → at c (set_at d l g) ≡ (if category_beq d c then l else at c g)
at-set_at c d l g = ground arith

pub is_in-count :
    (user : String) (c : Category) (g : Group) → (is_in user c g ≡ true) ↔ (0 < count user c g)
unfolding is_in count
is_in-count user c g = any-count_in user (at c g)

pub count-push_to :
    (user : String) (c : Category) (new : Option Category) (m : Membership) (g : Group)
    → count user c (push_to new m g)
      ≡ count user c g + one_if (is_category new c && (m.user == user))
unfolding count
count-push_to user c none m g = omega arith
count-push_to user admins (some d) m g = ground (arith, count_in-push user g.admins m)
count-push_to user members (some d) m g = ground (arith, count_in-push user g.members m)
count-push_to user invited (some d) m g = ground (arith, count_in-push user g.invited m)
count-push_to user declined (some d) m g = ground (arith, count_in-push user g.declined m)
count-push_to user requested (some d) m g = ground (arith, count_in-push user g.requested m)
