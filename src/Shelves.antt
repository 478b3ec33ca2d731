-- ===== src/Shelves.antt =====
-- The items on the shelves of users (server/types/shelf.ts, server/controllers/shelves/lib/shelves.ts
-- and updateItemsShelves of server/controllers/items/lib/items.ts).
mod Lists
mod Owned
mod Tests
use inventaire.Base.{
  ℕ, String, Bool, true, false, not, Option, none, some, List, [], ◌∷◌, ◌++◌, ◌==◌, string_eq, map,
  filter, includes, without, if◌then◌else◌, Outcome, ok, err, http, ◌>>=◌, ◌>>◌,
}
use inventaire.Couch.{Database}
use inventaire.Items.{Item}

-- A missing description is the empty text.
pub record Shelf : Type 0 where
  pub id : String
  pub name : String
  pub description : String
  pub owner : String
  pub visibility : List String
  pub color : String
  pub created : ℕ
  pub updated : Option ℕ

-- _.uniq, union and difference
unfoldable pub uniq : List String → List String
uniq [] = []
uniq (x ∷ xs) = x ∷ without (uniq xs) x

unfoldable pub union : List String → List String → List String
unfolding uniq
union xs ys = uniq (xs ++ ys)

unfoldable pub difference : List String → List String → List String
difference xs ys = filter (λ x. not (includes ys x)) xs

-- actionFunctions
pub data ShelvesAction : Type 0 where
  add_shelves delete_shelves : ShelvesAction

unfoldable pub action_function : ShelvesAction → List String → List String → List String
action_function add_shelves = union
action_function delete_shelves = difference

-- The documents that byIds finds: it leaves out those that are not there.
unfoldable pub by_ids : {Doc : Type 0} → (String → Option Doc) → List String → List Doc
by_ids get [] = []
by_ids get (id ∷ ids) =
    let rest = by_ids get ids in elim (get id) [ none ↦ rest | some d ↦ d ∷ rest ]

-- validateOwnership and validateShelfOwnership, with their status
unfoldable pub validate_ownership :
    {Doc : Type 0} → (Doc → String) → ℕ → String → List Doc → Outcome (Unit {0})
validate_ownership owner status user [] = ok tt
validate_ownership owner status user (d ∷ docs) =
    let rest = validate_ownership owner status user docs in
    if owner d == user then rest else err (http "wrong owner" status)

unfoldable pub with_shelves : ShelvesAction → List String → Item → Item
with_shelves action shelves_ids item = record item {
  shelves = action_function action item.shelves shelves_ids;
}

module _ (items : Database Item) where
  -- db.bulk, of documents that are in the database
  unfoldable pub bulk : List Item → items.Store → items.Store
  bulk [] s = s
  bulk (item ∷ docs) s = bulk docs (items.put s item.id item)

  -- updateItemsShelves
  unfoldable pub update_items_shelves :
      ShelvesAction → List String → String → List String → items.Store → Outcome items.Store
  update_items_shelves action shelves_ids user items_ids s = do
    let docs = by_ids (items.get s) items_ids
    validate_ownership (λ (i : Item). i.owner) 400 user docs
    ok (bulk (map (with_shelves action shelves_ids) docs) s)

  -- updateShelvesItems, without the shelves that it returns: addItemsToShelves and
  -- removeItemsFromShelves
  unfoldable pub update_shelves_items :
      (shelves : Database Shelf)
      → shelves.Store
      → ShelvesAction
      → List String
      → String
      → List String
      → items.Store
      → Outcome items.Store
  update_shelves_items shelves at action shelves_ids user items_ids s = do
    validate_ownership (λ (shelf : Shelf). shelf.owner) 403 user
        (by_ids (shelves.get at) shelves_ids)
    update_items_shelves action shelves_ids user items_ids s
