-- ===== src/Visibility/Filter.antt =====
-- filterVisibleDocs (server/lib/visibility/filter_visible_docs.ts), and who may see a document by the
-- whole network of the user.
use inventaire.Base.{
  String, Bool, true, false, Option, none, some, List, [], ◌∷◌, ◌==◌, string_eq, ◌&&◌, ◌||◌, any,
  all, filter, includes, includes-append, ok, All, ◌≡◌, ◌∙◌, refl, sym, ap, subst, arith, eq_iff,
  beq_refl, Bool-cases, inl, inr,
}
use inventaire.Groups.{Group, admins, members}
use inventaire.Groups.Requests.{users_ids}
use inventaire.Visibility.{
  Doc, is_visibility_group_key, get_group_id_from_key, Network, all_visibility_keys, groups_ids,
  NetworkData, get_minimal_required_user_network_data, some_group_has, is_visible, filter_outcome,
  is_public, filter_visible_docs,
}

abbrev group_has : Option Group → String → Bool
group_has none user = false
group_has (some g) user = includes (users_ids (admins ∷ members ∷ []) g) user

abbrev pub key_allows : Network → String → String → Bool
key_allows network user key =
    is_visibility_group_key key && group_has (network.group (get_group_id_from_key key)) user

-- The documents that a user may see: the own ones, public ones, those of friends and of members of
-- the same groups where their keys say so, and those for a group that the user is a member of.
unfoldable pub may_see : Network → String → Doc → Bool
may_see network user d =
    d.user == user
    || (is_public d
        || ((includes d.visibility "groups" && includes network.co_groups_members_ids d.user)
            || ((includes d.visibility "friends" && includes network.friends_ids d.user)
                || any (key_allows network user) d.visibility)))

abbrev Found : Network → NetworkData → String → Type 0
Found network fetched key =
    is_visibility_group_key key ≡ true
    → (g : Group) × (network.group (get_group_id_from_key key) ≡ some g)
      × (fetched.members_sets (get_group_id_from_key key)
          ≡ some (users_ids (admins ∷ members ∷ []) g))

some_group_has-any :
    (network : Network) (fetched : NetworkData) (user : String) (keys : List String)
    → All (Found network fetched) keys
    → some_group_has fetched user keys ≡ ok (any (key_allows network user) keys)
unfolding some_group_has any
some_group_has-any network fetched user [] h = refl
some_group_has-any network fetched user (key ∷ keys) (h, k) =
    elim (Bool-cases (is_visibility_group_key key)) [
      | inl e ↦
          let (g, in_network, in_fetched) = h e in
          rw (e, in_network, in_fetched)
            (elim (Bool-cases (includes (users_ids (admins ∷ members ∷ []) g) user)) [
              | inl has ↦ rw has refl
              | inr hasnt ↦ rw hasnt (some_group_has-any network fetched user keys k)
            ])
      | inr e ↦ rw e (some_group_has-any network fetched user keys k)
    ]

-- The fetched data suffice for the document.
record Suffices (network : Network) (fetched : NetworkData) (d : Doc) : Type 0 where
  friends_fetched : includes d.visibility "friends" ≡ true → fetched.friends ≡ network.friends_ids
  co_members_fetched :
      includes d.visibility "groups" ≡ true → fetched.co_members ≡ network.co_groups_members_ids
  groups_fetched : All (Found network fetched) d.visibility

is_visible-may_see :
    (network : Network) (fetched : NetworkData) (user : String) (d : Doc)
    → Suffices network fetched d
    → is_visible fetched user d ≡ ok (may_see network user d)
unfolding is_visible may_see
is_visible-may_see network fetched user d s = ground (
  arith,
  some_group_has-any network fetched user d.visibility s.groups_fetched,
  s.friends_fetched,
  s.co_members_fetched,
)

filter_outcome-filter :
    (network : Network) (fetched : NetworkData) (user : String) (docs : List Doc)
    → All (Suffices network fetched) docs
    → filter_outcome (is_visible fetched user) docs ≡ ok (filter (may_see network user) docs)
unfolding filter_outcome filter
filter_outcome-filter network fetched user [] h = refl
filter_outcome-filter network fetched user (d ∷ docs) (h, k) =
    rw
      (
        is_visible-may_see network fetched user d h,
        filter_outcome-filter network fetched user docs k,
      )
      refl

includes-groups_ids :
    (keys : List String) (key : String)
    → includes keys key ≡ true
    → is_visibility_group_key key ≡ true
    → includes (groups_ids keys) (get_group_id_from_key key) ≡ true
unfolding includes filter
includes-groups_ids [] key h k = absurd (ground arith)
includes-groups_ids (x ∷ keys) key h k = elim (Bool-cases (x == key)) [
  | inl e ↦
      let same : key ≡ x = sym ((eq_iff x key).0 e) in
      let group : is_visibility_group_key x ≡ true =
        subst (λ y. is_visibility_group_key y ≡ true) same k in
      rw group (ground (arith, beq_refl (get_group_id_from_key key), ap get_group_id_from_key same))
  | inr e ↦
      let rest : includes keys key ≡ true = rw e at h in
      elim (Bool-cases (is_visibility_group_key x)) [
        | inl g ↦ rw g (ground (arith, includes-groups_ids keys key rest k))
        | inr g ↦ rw g (includes-groups_ids keys key rest k)
      ]
]

-- Every group that a visibility key names is in the database.
unfoldable pub HasGroups : Network → List String → Type 0
HasGroups network keys =
    (key : String)
    → includes keys key ≡ true
    → is_visibility_group_key key ≡ true
    → (g : Group) × (network.group (get_group_id_from_key key) ≡ some g)

module _ (network : Network) (docs : List Doc)
    (groups_exist : HasGroups network (all_visibility_keys docs)) where
  fetched : NetworkData
  fetched = get_minimal_required_user_network_data network docs

  abbrev Among : List String → Type 0
  Among keys =
      (key : String) → includes keys key ≡ true → includes (all_visibility_keys docs) key ≡ true

  keys_covered : (keys : List String) → Among keys → All (Found network fetched) keys
  unfolding fetched get_minimal_required_user_network_data includes HasGroups
  keys_covered [] h = tt
  keys_covered (key ∷ keys) h = (
    λ e.
        let inside = h key (rw (beq_refl key) refl) in
        let (g, found) = groups_exist key inside e in
        (g, found, rw (includes-groups_ids (all_visibility_keys docs) key inside e, found) refl),
    keys_covered keys (λ k e. h k (ground arith)),
  )

  doc_covered : (d : Doc) → Among d.visibility → Suffices network fetched d
  unfolding fetched get_minimal_required_user_network_data
  doc_covered d h = record {
    friends_fetched = λ e. rw (h "friends" e) refl;
    co_members_fetched = λ e. rw (h "groups" e) refl;
    groups_fetched = keys_covered d.visibility h;
  }

  docs_covered :
      (ds : List Doc) → Among (all_visibility_keys ds) → All (Suffices network fetched) ds
  unfolding all_visibility_keys
  docs_covered [] h = tt
  docs_covered (d ∷ ds) h = (
    doc_covered d
        (λ key e. h key (includes-append d.visibility (all_visibility_keys ds) key ∙ ground arith)),
    docs_covered ds
        (λ key e. h key (includes-append d.visibility (all_visibility_keys ds) key ∙ ground arith)),
  )

owned_kept :
    (network : Network) (user : String) (docs : List Doc)
    → all (λ d. d.user == user) docs ≡ true
    → filter (may_see network user) docs ≡ docs
unfolding all filter may_see
owned_kept network user [] h = refl
owned_kept network user (d ∷ docs) h = ground (arith, owned_kept network user docs)

abbrev pub visible_to : Network → Option String → List Doc → List Doc
visible_to network none docs = filter is_public docs
visible_to network (some user) docs = filter (may_see network user) docs

-- If every group that a visibility key of the documents names is in the database, then the filter of
-- visible documents succeeds: it keeps, for a user, the documents that the user may see by the whole
-- network, and without a user the public ones.
pub filter_visible_docs-may_see :
    (network : Network) (docs : List Doc) (user : Option String)
    → HasGroups network (all_visibility_keys docs)
    → filter_visible_docs network docs user ≡ ok (visible_to network user docs)
unfolding filter_visible_docs get_minimal_required_user_network_data fetched
filter_visible_docs-may_see network docs none h = refl
filter_visible_docs-may_see network docs (some user) h =
    elim (Bool-cases (all (λ d. d.user == user) docs)) [
      | inl e ↦ rw (e, owned_kept network user docs e) refl
      | inr e ↦ rw e (
          filter_outcome-filter network (fetched network docs h) user docs
            (docs_covered network docs h docs (λ key k. k)))
    ]
