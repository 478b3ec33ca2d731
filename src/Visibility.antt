-- ===== src/Visibility.antt =====
-- Who may see items, shelves and listings (server/lib/visibility/filter_visible_docs.ts and
-- allowed_visibility_keys.ts, server/lib/interactions.ts). What the queries on relations and groups
-- answer for the requesting user is a parameter.
mod Filter
mod Interactions
mod Tests
use Prim.Native.String.{◌++◌ as text_append}
use inventaire.Base.{
  ℕ, ltb, nat_beq, length, String, Bool, true, false, Option, none, some, List, [], ◌∷◌, ◌++◌, ◌==◌,
  string_eq, ◌&&◌, ◌||◌, not, any, all, filter, includes, map, if◌then◌else◌, Outcome, ok, err,
  http, failed, ◌>>=◌,
}
use inventaire.Validation.{is_couch_uuid}
use inventaire.Relations.{split_id}
use inventaire.Groups.{Group, admins, members}
use inventaire.Groups.Requests.{users_ids}

-- A document with its owner or creator, and its visibility keys
pub record Doc : Type 0 where
  pub user : String
  pub visibility : List String

unfoldable pub is_visibility_group_key : String → Bool
is_visibility_group_key key = (split_id key).0 == "group" && is_couch_uuid (split_id key).1

abbrev pub get_group_id_from_key : String → String
get_group_id_from_key key = (split_id key).1

-- getUserFriends, getUserGroupsCoMembers and getGroupsByIds for the requesting user; a group that
-- is not found is left out of the answer of the last.
pub record Network : Type 0 where
  pub friends_ids : List String
  pub co_groups_members_ids : List String
  pub group : String → Option Group

-- groupsMembersIdsSets[groupId]; `none` is undefined.
abbrev pub members_ids : Option Group → Option (List String)
members_ids none = none
members_ids (some g) = some (users_ids (admins ∷ members ∷ []) g)

unfoldable pub all_visibility_keys : List Doc → List String
all_visibility_keys [] = []
all_visibility_keys (d ∷ docs) = d.visibility ++ all_visibility_keys docs

abbrev pub groups_ids : List String → List String
groups_ids keys = map get_group_id_from_key (filter is_visibility_group_key keys)

-- What getMinimalRequiredUserNetworkData and getGroupsMembersIdsSets make of the network
pub record NetworkData : Type 0 where
  pub friends : List String
  pub co_members : List String
  pub members_sets : String → Option (List String)

unfoldable pub get_minimal_required_user_network_data : Network → List Doc → NetworkData
get_minimal_required_user_network_data network docs =
    let keys = all_visibility_keys docs in
    record {
      friends = if includes keys "friends" then network.friends_ids else [];
      co_members = if includes keys "groups" then network.co_groups_members_ids else [];
      members_sets =
          λ id. if includes (groups_ids keys) id then members_ids (network.group id) else none;
    }

-- `membersIdsSet.has(reqUserId)`, which throws where the set is undefined
abbrev pub set_has : Option (List String) → String → Outcome Bool
set_has none user = err failed
set_has (some ids) user = ok (includes ids user)

-- `if (test) return true`, before the rest of the loop
abbrev pub or_rest : Outcome Bool → Outcome Bool → Outcome Bool
or_rest (err failure) rest = err failure
or_rest (ok true) rest = ok true
or_rest (ok false) rest = rest

-- The loop on the keys
unfoldable pub some_group_has : NetworkData → String → List String → Outcome Bool
some_group_has network user [] = ok false
some_group_has network user (key ∷ keys) =
    let rest = some_group_has network user keys in
    if is_visibility_group_key key
    then or_rest (set_has (network.members_sets (get_group_id_from_key key)) user) rest
    else rest

unfoldable pub is_visible : NetworkData → String → Doc → Outcome Bool
is_visible network user d =
    if d.user == user
    then ok true
    else if includes d.visibility "public"
    then ok true
    else if includes d.visibility "groups" && includes network.co_members d.user
    then ok true
    else if includes d.visibility "friends" && includes network.friends d.user
    then ok true
    else some_group_has network user d.visibility

-- docs.filter, whose test may throw
unfoldable pub filter_outcome : (Doc → Outcome Bool) → List Doc → Outcome (List Doc)
filter_outcome test [] = ok []
filter_outcome test (d ∷ docs) = do
  keep ← test d
  rest ← filter_outcome test docs
  ok (if keep then d ∷ rest else rest)

abbrev pub is_public : Doc → Bool
is_public d = includes d.visibility "public"

unfoldable pub filter_visible_docs : Network → List Doc → Option String → Outcome (List Doc)
filter_visible_docs network docs none = ok (filter is_public docs)
filter_visible_docs network docs (some user) =
    if all (λ d. d.user == user) docs
    then ok docs
    else filter_outcome (is_visible (get_minimal_required_user_network_data network docs) user) docs

-- getAllowedVisibilityKeys, by whether the users are friends, and the groups that they share
unfoldable pub get_allowed_visibility_keys :
    String → Option String → Bool → List String → List String
get_allowed_visibility_keys user none friends shared = "public" ∷ []
get_allowed_visibility_keys user (some other) friends shared =
    if user == other
    then "private" ∷ []
    else "public"
      ∷ ((if friends then "friends" ∷ [] else [])
          ++ (if ltb 0 (length shared)
              then "groups" ∷ map (λ id. text_append "group:" id) shared
              else []))

-- someMatch
unfoldable pub some_match : List String → List String → Bool
some_match xs ys = any (λ x. includes ys x) xs

-- What verifyRightToInteractWithItem returns: the item, or the Boolean of someMatch
pub data Verified : Type 0 where
  item : Doc → Verified
  matched : Bool → Verified

unfoldable pub verify_right_to_interact_with_item :
    String → Doc → Bool → Bool → List String → Outcome Verified
verify_right_to_interact_with_item user d owner_allowed friends shared =
    if d.user == user
    then if owner_allowed then ok (item d) else err (http "not allowed with this item" 403)
    else if nat_beq (length d.visibility) 0
    then err (http "not allowed with this item" 403)
    else if includes d.visibility "public"
    then ok (item d)
    else ok (
        matched
          (some_match d.visibility (get_allowed_visibility_keys d.user (some user) friends shared)))
