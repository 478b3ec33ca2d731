-- ===== src/Groups/Removal.antt =====
-- removeUserFromGroupDoc of server/models/group.ts: what becomes of a group when a user deletes the
-- account.
use inventaire.Base.{String, List, [], ◌∷◌, take, drop, leb, filter, not, string_eq, if◌then◌else◌}
use inventaire.Groups.{Group, Membership, is_user}

unfoldable pub without_user : String → List Membership → List Membership
without_user user l = filter (λ m. not (is_user user m)) l

-- `members.sort(byTimestamp)`, which is stable
unfoldable pub insert_by_timestamp : Membership → List Membership → List Membership
insert_by_timestamp m [] = m ∷ []
insert_by_timestamp m (x ∷ l) =
    let rest = insert_by_timestamp m l in
    if leb m.timestamp x.timestamp then m ∷ x ∷ l else x ∷ rest

unfoldable pub sort_by_timestamp : List Membership → List Membership
sort_by_timestamp [] = []
sort_by_timestamp (m ∷ l) = insert_by_timestamp m (sort_by_timestamp l)

-- "If there are no more admins, promote the 3 most senior members"
unfoldable pub promote_members : Group → List Membership → Group
promote_members g [] = record g {
  admins = take 3 (sort_by_timestamp g.members);
  members = drop 3 (sort_by_timestamp g.members);
}
promote_members g (_ ∷ _) = g

unfoldable pub remove_user_from_group_doc : Group → String → Group
remove_user_from_group_doc g user =
    let g' = record g {
      admins = without_user user g.admins;
      members = without_user user g.members;
      invited = without_user user g.invited;
      declined = without_user user g.declined;
      requested = without_user user g.requested;
    } in
    promote_members g' g'.admins
