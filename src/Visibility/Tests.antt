-- ===== src/Visibility/Tests.antt =====
-- Documents of two users, seen by a third, and the theorems at these inputs.
use inventaire.Base.{
  String, true, false, none, some, List, [], ◌∷◌, ◌==◌, string_eq, any, all, filter, includes, ok,
  err, failed, ◌≡◌, refl, arith, subst, eq_iff, Bool-cases, inl, inr,
}
use inventaire.Validation.{is_couch_uuid, is_hex}
use inventaire.Relations.{split_id, before_colon, after_colon}
use inventaire.Groups.{create_group_doc}
use inventaire.Groups.Requests.{users_ids}
use inventaire.Visibility.{
  Doc, Network, is_visibility_group_key, all_visibility_keys,
  get_minimal_required_user_network_data, some_group_has, is_visible, filter_outcome,
  filter_visible_docs, get_allowed_visibility_keys, some_match, matched,
  verify_right_to_interact_with_item,
}
use inventaire.Visibility.Filter.{may_see, HasGroups, visible_to, filter_visible_docs-may_see}

abbrev group_key : String
group_key = "group:0123456789abcdef0123456789abcdef"

abbrev shelf : Doc
shelf = record { user = "ann"; visibility = "friends" ∷ [] }

abbrev listing : Doc
listing = record { user = "eve"; visibility = "groups" ∷ [] }

abbrev for_group : Doc
for_group = record { user = "eve"; visibility = group_key ∷ [] }

abbrev docs : List Doc
docs = shelf ∷ listing ∷ []

abbrev bobs : Network
bobs = record { friends_ids = "ann" ∷ []; co_groups_members_ids = []; group = λ id. none }

abbrev members_of : Network
members_of = record bobs {
  group = λ id. some (create_group_doc 1 id "readers" "readers" none true false "bob");
}

server : Unit {0}
unfolding is_couch_uuid is_hex split_id before_colon after_colon create_group_doc users_ids
    is_visibility_group_key all_visibility_keys get_minimal_required_user_network_data
    some_group_has is_visible filter_outcome filter_visible_docs get_allowed_visibility_keys
    some_match verify_right_to_interact_with_item may_see any all filter includes
server = tt

runs :
    (filter_visible_docs bobs docs (some "bob") ≡ ok (shelf ∷ []))
    × (filter_visible_docs bobs docs none ≡ ok [])
    × (filter_visible_docs members_of (for_group ∷ []) (some "bob") ≡ ok (for_group ∷ []))
    × (filter_visible_docs bobs (for_group ∷ []) (some "bob") ≡ err failed)
    × (verify_right_to_interact_with_item "bob" shelf false false [] ≡ ok (matched false))
unfolding server
runs = (refl, refl, refl, refl, refl)

no_group :
    (key : String)
    → includes ("friends" ∷ "groups" ∷ []) key ≡ true
    → is_visibility_group_key key ≡ false
unfolding server
no_group key h = elim (Bool-cases ("friends" == key)) [
  | inl e ↦ subst (λ x. is_visibility_group_key x ≡ false) ((eq_iff "friends" key).0 e) refl
  | inr e ↦
      subst (λ x. is_visibility_group_key x ≡ false) ((eq_iff "groups" key).0 (ground arith)) refl
]

docs-HasGroups : HasGroups bobs (all_visibility_keys docs)
unfolding server HasGroups
docs-HasGroups key h e = absurd (cc (no_group key h, e))

filter_visible_docs-may_see_example :
    filter_visible_docs bobs docs (some "bob") ≡ ok (visible_to bobs (some "bob") docs)
filter_visible_docs-may_see_example =
    filter_visible_docs-may_see bobs docs (some "bob") docs-HasGroups
