-- ===== src/Items/Tests.antt =====
-- Updates of an item, and the theorems at these inputs.
use inventaire.Base.{
  ◌≡◌, refl, string_eq, some, none, List, [], ◌∷◌, ok, err, http, all, includes, nat_eq,
}
use inventaire.Validation.{is_couch_uuid, is_hex}
use inventaire.Items.{inventorying, lending, Item}
use inventaire.Items.Updates.{
  Change, to_transaction, to_visibility, to_entity, to_other, is_entity_uri, is_visibility_key,
  is_digit, is_word, after, mode_named, not_updatable, apply_change, apply_changes, update_item_doc,
}
use inventaire.Items.Checked.{IsValid, HasSameOrigin, update_item_doc-IsValid}

abbrev shelved : Item
shelved = record {
  id = "i";
  created = 1;
  updated = none;
  owner = "ann";
  transaction = inventorying;
  entity = "wd:Q42";
  shelves = "0123456789abcdef0123456789abcdef" ∷ [];
  visibility = [];
  details = none;
  notes = none;
  history = [];
  previous_entities = [];
}

abbrev lent : Item
lent = record shelved {
  transaction = lending;
  visibility = "friends" ∷ [];
  entity = "isbn:9782070389162";
  updated = some 5;
}

abbrev lend : List Change
lend =
    to_transaction "lending"
    ∷ to_other "owner"
    ∷ to_visibility ("friends" ∷ [])
    ∷ to_entity "isbn:9782070389162"
    ∷ []

update_lend : update_item_doc 5 "ann" lend shelved ≡ ok lent
unfolding update_item_doc apply_changes apply_change mode_named not_updatable is_visibility_key
    includes all is_entity_uri after is_word is_digit is_hex
update_lend = refl

shelved-IsValid : IsValid shelved
unfolding IsValid is_entity_uri after is_digit is_word is_hex all is_couch_uuid
shelved-IsValid = (refl, refl, refl)

-- The work of Wikidata needs a number.
unnumbered :
    update_item_doc 5 "ann" (to_entity "wd:Q" ∷ []) shelved ≡ err (http "invalid entity: wd:Q" 400)
unfolding update_item_doc apply_changes apply_change is_entity_uri after is_word is_digit is_hex all
unnumbered = refl

unknown_attribute :
    update_item_doc 5 "ann" (to_other "price" ∷ []) shelved
    ≡ err (http "invalid attribute: price" 400)
unfolding update_item_doc apply_changes apply_change not_updatable includes
unknown_attribute = refl

update_item_doc-IsValid_example :
    (shelved.owner ≡ "ann") × (lent.updated ≡ some 5) × IsValid lent × HasSameOrigin shelved lent
update_item_doc-IsValid_example =
    update_item_doc-IsValid 5 "ann" lend shelved lent update_lend shelved-IsValid
