-- ===== src/Items/Checked.antt =====
-- What an update by its owner leaves in an item, and when one is accepted (updateItemDoc of
-- server/models/item.ts).
use inventaire.Base.{
  ℕ, String, Bool, true, false, ◌≡◌, refl, arith, ◌&&◌, ◌||◌, some, List, [], ◌∷◌, ◌==◌, string_eq,
  eq_iff, all, Outcome, ok, err, ◌>>=◌, bind_inv, ap, ◌∙◌,
}
use inventaire.Validation.{is_couch_uuid}
use inventaire.Items.{Item}
use inventaire.Items.Updates.{
  is_entity_uri, is_visibility_key, mode_named, not_updatable, Change, to_transaction, to_details,
  to_notes, to_entity, to_visibility, to_shelves, to_other, apply_change, apply_changes,
  update_item_doc,
}

-- An item whose values pass the tests
unfoldable pub IsValid : Item → Type 0
IsValid item =
    (is_entity_uri item.entity ≡ true)
    × (all is_visibility_key item.visibility ≡ true)
    × (all is_couch_uuid item.shelves ≡ true)

-- Two items with the same values of the attributes that are not updatable, but for `updated`
unfoldable pub HasSameOrigin : Item → Item → Type 0
HasSameOrigin old new =
    (new.id ≡ old.id)
    × (new.created ≡ old.created)
    × (new.owner ≡ old.owner)
    × (new.history ≡ old.history)
    × (new.previous_entities ≡ old.previous_entities)

-- One change keeps the values valid and the rest as it was.
apply_change-IsValid :
    (change : Change) (old new : Item)
    → apply_change change old ≡ ok new
    → IsValid old
    → IsValid new × HasSameOrigin old new
unfolding IsValid HasSameOrigin apply_change
apply_change-IsValid (to_transaction name) old new h valid = ground arith
apply_change-IsValid (to_details text) old new h valid = ground arith
apply_change-IsValid (to_notes text) old new h valid = ground arith
apply_change-IsValid (to_entity uri) old new h valid = ground arith
apply_change-IsValid (to_visibility keys) old new h valid = ground arith
apply_change-IsValid (to_shelves ids) old new h valid = ground arith
apply_change-IsValid (to_other name) old new h valid = ground arith

apply_changes-IsValid :
    (changes : List Change) (old new : Item)
    → apply_changes changes old ≡ ok new
    → IsValid old
    → IsValid new × HasSameOrigin old new
unfolding apply_changes HasSameOrigin
apply_changes-IsValid [] old new h valid = ground arith
apply_changes-IsValid (change ∷ changes) old new h valid =
    let (next, first, rest) =
      bind_inv (apply_change change old) (λ next. apply_changes changes next) new h in
    let (next_valid, same) = apply_change-IsValid change old next first valid in
    let (new_valid, same_too) = apply_changes-IsValid changes next new rest next_valid in
    (new_valid, ground arith)

-- An accepted update of an item is made by its owner; it keeps valid the values of a valid item,
-- dates the item, and keeps its id, creation date, owner, history and previous entities.
pub update_item_doc-IsValid :
    (now : ℕ) (user : String) (changes : List Change) (old new : Item)
    → update_item_doc now user changes old ≡ ok new
    → IsValid old
    → (old.owner ≡ user) × (new.updated ≡ some now) × IsValid new × HasSameOrigin old new
unfolding update_item_doc IsValid HasSameOrigin
update_item_doc-IsValid now user changes old new h valid =
    let (owned, next, run, e) : (old.owner ≡ user)
        × (next : Item) × (apply_changes changes old ≡ ok next)
        × (record next { updated = some now } ≡ new) =
      ground (arith, eq_iff old.owner user) in
    let (next_valid, same) = apply_changes-IsValid changes old next run valid in
    (owned, ground arith, ground arith, ground arith)

-- The changes that pass the tests, without the item
unfoldable pub is_acceptable : Change → Bool
is_acceptable (to_transaction name) =
    name == "giving" || name == "lending" || name == "selling" || name == "inventorying"
is_acceptable (to_details text) = true
is_acceptable (to_notes text) = true
is_acceptable (to_entity uri) = is_entity_uri uri
is_acceptable (to_visibility keys) = all is_visibility_key keys
is_acceptable (to_shelves ids) = all is_couch_uuid ids
is_acceptable (to_other name) = not_updatable name

unfoldable pub is_ok : Outcome Item → Bool
is_ok (ok item) = true
is_ok (err failure) = false

is_ok-apply_change :
    (change : Change) (old : Item) → is_ok (apply_change change old) ≡ is_acceptable change
unfolding is_ok is_acceptable apply_change mode_named
is_ok-apply_change (to_transaction name) old = ground arith
is_ok-apply_change (to_details text) old = refl
is_ok-apply_change (to_notes text) old = refl
is_ok-apply_change (to_entity uri) old = ground arith
is_ok-apply_change (to_visibility keys) old = ground arith
is_ok-apply_change (to_shelves ids) old = ground arith
is_ok-apply_change (to_other name) old = ground arith

is_ok-bind :
    (m : Outcome Item) (next : Item → Outcome Item) (b : Bool)
    → ((item : Item) → is_ok (next item) ≡ b)
    → is_ok (m >>= next) ≡ (is_ok m && b)
unfolding is_ok
is_ok-bind (ok item) next b h = h item
is_ok-bind (err failure) next b h = refl

is_ok-apply_changes :
    (changes : List Change) (old : Item)
    → is_ok (apply_changes changes old) ≡ all is_acceptable changes
unfolding is_ok apply_changes all
is_ok-apply_changes [] old = refl
is_ok-apply_changes (change ∷ changes) old =
    is_ok-bind (apply_change change old) (λ next. apply_changes changes next)
      (all is_acceptable changes) (λ next. is_ok-apply_changes changes next)
    ∙ ap (λ b. b && all is_acceptable changes) (is_ok-apply_change change old)

-- An update is accepted exactly if its user owns the item and each of the changes is acceptable,
-- whatever their order and the item's values.
is_ok-update_item_doc :
    (now : ℕ) (user : String) (changes : List Change) (old : Item)
    → is_ok (update_item_doc now user changes old)
      ≡ (old.owner == user && all is_acceptable changes)
unfolding update_item_doc is_ok
is_ok-update_item_doc now user changes old = ground (arith, is_ok-apply_changes changes old)
