-- ===== src/Groups/Seniority.antt =====
-- The group that removeUserFromGroupDoc (server/models/group.ts) leaves: its members and its admins.
use inventaire.Base.{
  ℕ, zero, suc, ◌+◌, ◌≤◌, ◌<◌, String, List, [], ◌∷◌, length, take, drop, filter, leb, All, ◌≡◌,
  ◌≢◌, ◌∙◌, refl, sym, ap, arith, ◌==◌, string_eq, eq_iff, Bool-cases, inl, inr, length-take,
  length-drop, take-append-drop,
}
use inventaire.Groups.{Membership, Group}
use inventaire.Groups.Removal.{
  without_user, insert_by_timestamp, sort_by_timestamp, promote_members, remove_user_from_group_doc,
}
use inventaire.Groups.Counting.{one_if, count_in, count_in-append, count, total}

count_in-without_self :
    (user : String) (l : List Membership) → count_in user (without_user user l) ≡ 0
unfolding without_user filter count_in
count_in-without_self user [] = refl
count_in-without_self user (m ∷ l) = ground (arith, count_in-without_self user l)

count_in-without_ne :
    (user v : String) (l : List Membership)
    → v ≢ user
    → count_in v (without_user user l) ≡ count_in v l
unfolding without_user filter count_in
count_in-without_ne user v [] ne = refl
count_in-without_ne user v (m ∷ l) ne =
    ground (arith, count_in-without_ne user v l ne, eq_iff m.user user, eq_iff m.user v)

count_in-insert :
    (v : String) (m : Membership) (l : List Membership)
    → count_in v (insert_by_timestamp m l) ≡ one_if (m.user == v) + count_in v l
unfolding insert_by_timestamp count_in
count_in-insert v m [] = refl
count_in-insert v m (x ∷ l) = ground (arith, count_in-insert v m l)

count_in-sort : (v : String) (l : List Membership) → count_in v (sort_by_timestamp l) ≡ count_in v l
unfolding sort_by_timestamp count_in
count_in-sort v [] = refl
count_in-sort v (m ∷ l) =
    omega (arith, count_in-insert v m (sort_by_timestamp l), count_in-sort v l)

abbrev pub NotBefore : ℕ → List Membership → Type 0
NotBefore t l = All (λ (x : Membership). t ≤ x.timestamp) l

abbrev pub IsSorted : List Membership → Type 0
IsSorted [] = Unit
IsSorted (m ∷ l) = NotBefore m.timestamp l × IsSorted l

NotBefore-mono : (s t : ℕ) (l : List Membership) → s ≤ t → NotBefore t l → NotBefore s l
NotBefore-mono s t [] h k = tt
NotBefore-mono s t (x ∷ l) h (a, b) = (omega arith, NotBefore-mono s t l h b)

NotBefore-insert :
    (t : ℕ) (m : Membership) (l : List Membership)
    → t ≤ m.timestamp
    → NotBefore t l
    → NotBefore t (insert_by_timestamp m l)
unfolding insert_by_timestamp
NotBefore-insert t m [] h k = (h, tt)
NotBefore-insert t m (x ∷ l) h (a, b) = elim (Bool-cases (leb m.timestamp x.timestamp)) [
  | inl e ↦ rw e (h, (a, b))
  | inr e ↦ rw e (a, NotBefore-insert t m l h b)
]

IsSorted-insert :
    (m : Membership) (l : List Membership) → IsSorted l → IsSorted (insert_by_timestamp m l)
unfolding insert_by_timestamp
IsSorted-insert m [] h = (tt, tt)
IsSorted-insert m (x ∷ l) (a, b) = elim (Bool-cases (leb m.timestamp x.timestamp)) [
  | inl e ↦ rw e ((ground arith, NotBefore-mono m.timestamp x.timestamp l (ground arith) a), (a, b))
  | inr e ↦ rw e (NotBefore-insert x.timestamp m l (ground arith) a, IsSorted-insert m l b)
]

IsSorted-sort : (l : List Membership) → IsSorted (sort_by_timestamp l)
unfolding sort_by_timestamp
IsSorted-sort [] = tt
IsSorted-sort (m ∷ l) = IsSorted-insert m (sort_by_timestamp l) (IsSorted-sort l)

NotBefore-drop : (t n : ℕ) (l : List Membership) → NotBefore t l → NotBefore t (drop n l)
NotBefore-drop t zero l h = h
NotBefore-drop t (suc n) [] h = tt
NotBefore-drop t (suc n) (x ∷ l) h = NotBefore-drop t n l h.1

-- Nobody among the rest is older than one among the first.
abbrev pub AreSenior : List Membership → List Membership → Type 0
AreSenior first rest = All (λ (m : Membership). NotBefore m.timestamp rest) first

AreSenior-take : (n : ℕ) (l : List Membership) → IsSorted l → AreSenior (take n l) (drop n l)
AreSenior-take zero l h = tt
AreSenior-take (suc n) [] h = tt
AreSenior-take (suc n) (x ∷ l) (a, b) = (NotBefore-drop x.timestamp n l a, AreSenior-take n l b)

count_in-split :
    (v : String) (n : ℕ) (l : List Membership)
    → count_in v (take n l) + count_in v (drop n l) ≡ count_in v l
count_in-split v n l =
    sym (count_in-append v (take n l) (drop n l)) ∙ ap (count_in v) (take-append-drop n l)

abbrev pub cleared : Group → String → Group
cleared g user = record g {
  admins = without_user user g.admins;
  members = without_user user g.members;
  invited = without_user user g.invited;
  declined = without_user user g.declined;
  requested = without_user user g.requested;
}

total-cleared_self : (user : String) (g : Group) → total user (cleared g user) ≡ 0
unfolding total count
total-cleared_self user g = omega (
  arith,
  count_in-without_self user g.admins,
  count_in-without_self user g.members,
  count_in-without_self user g.invited,
  count_in-without_self user g.declined,
  count_in-without_self user g.requested,
)

total-cleared_ne : (user v : String) (g : Group) → v ≢ user → total v (cleared g user) ≡ total v g
unfolding total count
total-cleared_ne user v g ne = omega (
  arith,
  count_in-without_ne user v g.admins ne,
  count_in-without_ne user v g.members ne,
  count_in-without_ne user v g.invited ne,
  count_in-without_ne user v g.declined ne,
  count_in-without_ne user v g.requested ne,
)

total-promote :
    (v : String) (g : Group) (l : List Membership)
    → g.admins ≡ l
    → total v (promote_members g l) ≡ total v g
unfolding total count promote_members count_in
total-promote v g [] e = omega (
  arith,
  count_in-split v 3 (sort_by_timestamp g.members),
  count_in-sort v g.members,
  ap (count_in v) e,
  no_count v,
)
  where
    no_count : (v : String) → count_in v [] ≡ 0
    no_count v = refl
total-promote v g (_ ∷ _) e = refl

-- What `remove_user_from_group_doc` promises.
pub record Succeeds (user : String) (g g' : Group) : Type 0 where
  pub gone : total user g' ≡ 0
  pub others : (v : String) → v ≢ user → total v g' ≡ total v g
  pub led : length g'.admins ≡ 0 → length g'.members ≡ 0
  pub kept : 0 < length (without_user user g.admins) → g'.admins ≡ without_user user g.admins
  pub few : length (without_user user g.admins) ≡ 0 → length g'.admins ≤ 3
  pub senior : length (without_user user g.admins) ≡ 0 → AreSenior g'.admins g'.members

abbrev Leadership : Group → List Membership → Group → Type 0
Leadership g l g' =
    (length g'.admins ≡ 0 → length g'.members ≡ 0)
    × (0 < length l → g'.admins ≡ l)
    × (length l ≡ 0 → length g'.admins ≤ 3)
    × (length l ≡ 0 → AreSenior g'.admins g'.members)

promote-Leadership :
    (g : Group) (l : List Membership) → g.admins ≡ l → Leadership g l (promote_members g l)
unfolding promote_members
promote-Leadership g [] e = (
  λ h. omega (
    arith,
    length-take 3 (sort_by_timestamp g.members),
    length-drop 3 (sort_by_timestamp g.members),
  ),
  λ h. absurd (omega arith),
  λ h. omega (arith, length-take 3 (sort_by_timestamp g.members)),
  λ h. AreSenior-take 3 (sort_by_timestamp g.members) (IsSorted-sort g.members),
)
promote-Leadership g (m ∷ l) e = (
  λ h. absurd (omega (arith, ap (λ x. length x) e)),
  λ h. e,
  λ h. absurd (omega arith),
  λ h. absurd (omega arith),
)

-- After a user is removed from a group document the user has no membership in it, and each other
-- user has as many as before. If admins are left they stay the admins; else the admins are at most
-- three of the members, none of them younger in the group than a member that is left. There is no
-- group with members and no admin.
remove_user-Succeeds :
    (user : String) (g : Group) → Succeeds user g (remove_user_from_group_doc g user)
unfolding remove_user_from_group_doc
remove_user-Succeeds user g =
    let c = cleared g user in
    let (led, kept, few, senior) = promote-Leadership c c.admins refl in
    record {
      gone = total-promote user c c.admins refl ∙ total-cleared_self user g;
      others = λ v ne. total-promote v c c.admins refl ∙ total-cleared_ne user v g ne;
      led = led;
      kept = kept;
      few = few;
      senior = senior;
    }
