-- ===== src/Items/Updates.antt =====
-- The update of an item by its owner (updateItemDoc of server/models/item.ts), with the tests on
-- the new values (server/models/validations/item.ts and visibility.ts, server/lib/regex.ts).
use Prim.Native.String.{◌++◌ as join}
use inventaire.Base.{
  ℕ, String, Bool, false, ◌&&◌, ◌||◌, not, Option, none, some, List, [], ◌∷◌, ◌==◌, string_eq,
  nat_beq, nat_eq, leb, length, all, includes, if◌then◌else◌, Outcome, ok, err, http, require,
  ◌>>=◌, ◌>>◌,
}
use inventaire.Validation.{codes, is_hex, is_couch_uuid}
use inventaire.Visibility.{is_visibility_group_key}
use inventaire.Items.{Mode, giving, lending, selling, inventorying, Item}

-- What is left of a text after a prefix, both by their code points
unfoldable pub after : List ℕ → List ℕ → Option (List ℕ)
after [] cs = some cs
after (p ∷ ps) [] = none
after (p ∷ ps) (c ∷ cs) = let rest = after ps cs in if p == c then rest else none

unfoldable pub is_digit : ℕ → Bool
is_digit c = leb b'0' c && leb c b'9'

-- \w
unfoldable pub is_word : ℕ → Bool
unfolding is_digit
is_word c = is_digit c || (leb b'a' c && leb c b'z') || (leb b'A' c && leb c b'Z') || nat_beq c b'_'

abbrev pub holds_after : List ℕ → (List ℕ → Bool) → List ℕ → Bool
holds_after prefix test cs = rest_holds (after prefix cs) test
  where
    rest_holds : Option (List ℕ) → (List ℕ → Bool) → Bool
    rest_holds none test = false
    rest_holds (some rest) test = test rest

-- EntityUri
unfoldable pub is_entity_uri : String → Bool
is_entity_uri uri =
    holds_after (codes "wd:Q") (λ id. not (nat_beq (length id) 0) && all is_digit id) (codes uri)
    || holds_after (codes "inv:") (λ id. nat_beq (length id) 32 && all is_hex id) (codes uri)
    || holds_after (codes "isbn:")
        (λ id. (nat_beq (length id) 10 || nat_beq (length id) 13) && all is_word id) (codes uri)

unfoldable pub is_visibility_key : String → Bool
is_visibility_key key =
    includes ("friends" ∷ "groups" ∷ "public" ∷ []) key || is_visibility_group_key key

-- itemTransactionModes, by their names
unfoldable pub mode_named : String → Option Mode
mode_named name =
    if name == "giving"
    then some giving
    else if name == "lending"
    then some lending
    else if name == "selling"
    then some selling
    else if name == "inventorying"
    then some inventorying
    else none

-- An attribute passed with its new value: the updatable ones, and any other, by its name.
pub data Change : Type 0 where
  to_transaction to_details to_notes to_entity : String → Change
  to_visibility to_shelves : List String → Change
  to_other : String → Change

-- `notUpdatable`
unfoldable pub not_updatable : String → Bool
not_updatable =
    includes
      ("_id" ∷ "_rev" ∷ "created" ∷ "updated" ∷ "owner" ∷ "history" ∷ "previousEntities" ∷ [])

-- itemValidations.pass, for a list of values, all of which must pass; the message leaves out the
-- list.
abbrev pass_all : String → (String → Bool) → List String → Outcome (Unit {0})
pass_all attribute test values = require (all test values) (join "invalid " attribute) 400

abbrev pass_entity : String → Outcome (Unit {0})
pass_entity uri = require (is_entity_uri uri) (join "invalid entity: " uri) 400

abbrev set_transaction : String → Option Mode → Item → Outcome Item
set_transaction name none item = err (http (join "invalid transaction: " name) 400)
set_transaction name (some mode) item = ok (record item { transaction = mode })

-- The body of the loop on the passed attributes, without those that `omit` took out
unfoldable pub apply_change : Change → Item → Outcome Item
apply_change (to_transaction name) item = set_transaction name (mode_named name) item
apply_change (to_details text) item = ok (record item { details = some text })
apply_change (to_notes text) item = ok (record item { notes = some text })
apply_change (to_entity uri) item = pass_entity uri >> ok (record item { entity = uri })
apply_change (to_visibility keys) item =
    pass_all "visibility" is_visibility_key keys >> ok (record item { visibility = keys })
apply_change (to_shelves ids) item =
    pass_all "shelves" is_couch_uuid ids >> ok (record item { shelves = ids })
apply_change (to_other name) item =
    if not_updatable name then ok item else err (http (join "invalid attribute: " name) 400)

unfoldable pub apply_changes : List Change → Item → Outcome Item
apply_changes [] item = ok item
apply_changes (change ∷ changes) item =
    apply_change change item >>= λ next. apply_changes changes next

unfoldable pub update_item_doc : ℕ → String → List Change → Item → Outcome Item
update_item_doc now user changes item =
    if item.owner == user
    then (apply_changes changes item >>= λ next. ok (record next { updated = some now }))
    else err (http "user is not item owner" 400)
