-- ===== src/Shelves/Tests.antt =====
-- A request to put an item on a shelf, and the theorem at this request.
use inventaire.Base.{
  String, true, none, some, List, [], ◌∷◌, string_eq, ◌≡◌, refl, arith, eq_iff, includes, filter,
  without, ok, err, http,
}
use inventaire.Couch.{memory, memory_lookup}
use inventaire.Items.{Item, lending}
use inventaire.Shelves.{
  Shelf, union, difference, add_shelves, delete_shelves, action_function, by_ids,
  validate_ownership, with_shelves, bulk, update_items_shelves, update_shelves_items,
}
use inventaire.Shelves.Owned.{AreStored, is_of, is_on, off_shelves, update_shelves_items-places}

abbrev book : Item
book = record {
  id = "book";
  created = 1;
  updated = none;
  owner = "ann";
  transaction = lending;
  entity = "wd:Q1";
  shelves = "old" ∷ [];
  visibility = [];
  details = none;
  notes = none;
  history = [];
  previous_entities = [];
}

abbrev shelf : Shelf
shelf = record {
  id = "new";
  name = "Novels";
  description = "";
  owner = "ann";
  visibility = [];
  color = "#ffffff";
  created = 1;
  updated = none;
}

abbrev books : List (String × Item)
books = ("book", book) ∷ []

abbrev shelves : List (String × Shelf)
shelves = ("new", shelf) ∷ []

abbrev moved : List (String × Item)
moved = ("book", record book { shelves = "old" ∷ "new" ∷ [] }) ∷ []

books-AreStored : AreStored memory books
books-AreStored = record { at_id = λ id item h. ground (arith, eq_iff "book" id) }

added :
    update_shelves_items memory memory shelves add_shelves ("new" ∷ []) "ann" ("book" ∷ []) books
    ≡ ok moved
unfolding update_shelves_items update_items_shelves by_ids validate_ownership bulk with_shelves
    action_function union without
added = refl

-- Neither the shelf nor the item of another user
refused :
    update_shelves_items memory memory shelves add_shelves ("new" ∷ []) "bob" ("book" ∷ []) books
    ≡ err (http "wrong owner" 403)
unfolding update_shelves_items by_ids validate_ownership
refused = refl

-- Taking the item off the shelf again
removed :
    update_shelves_items memory memory shelves delete_shelves ("new" ∷ []) "ann" ("book" ∷ []) moved
    ≡ ok books
unfolding update_shelves_items update_items_shelves by_ids validate_ownership bulk with_shelves
    action_function difference filter includes
removed = refl

-- An item is put on a shelf that is not there.
added_to_missing :
    update_shelves_items memory memory shelves add_shelves ("gone" ∷ []) "ann" ("book" ∷ []) books
    ≡ ok (("book", record book { shelves = "old" ∷ "gone" ∷ [] }) ∷ [])
unfolding update_shelves_items update_items_shelves by_ids validate_ownership bulk with_shelves
    action_function union without
added_to_missing = refl

update_shelves_items-places_example :
    (is_of (λ (i : Item). i.owner) "ann" (some book) ≡ true)
    × (is_of (λ (h : Shelf). h.owner) "ann" (some shelf) ≡ true)
    × (is_on "new" (memory_lookup moved "book") ≡ true)
    × (off_shelves (memory_lookup moved "book") ≡ off_shelves (memory_lookup books "book"))
unfolding includes
update_shelves_items-places_example =
    update_shelves_items-places memory memory shelves add_shelves ("new" ∷ []) "ann" ("book" ∷ [])
      books moved "book" "new" books-AreStored added
