-- ===== src/Listings/Server.antt =====
-- The requests on the elements of a listing (server/controllers/listings/lib/listings.ts, elements.ts
-- and helpers.ts beside them, add_elements.ts, remove_elements.ts, update_element.ts). The elements of
-- a listing come from the view byListingAndOrdinal, in the order of their ordinals.
use inventaire.Base.{
  ℕ, ◌+◌, String, Bool, true, false, not, Option, none, some, List, [], ◌∷◌, ◌++◌, ◌==◌, string_eq,
  any, all, filter, includes, length, nat_beq, Outcome, ok, err, http, failed, require, ◌>>=◌, ◌>>◌,
}
use inventaire.Listings.Positions.{Engine, ListingElement, get_next_highest_ordinal}
use inventaire.Listings.Documents.{
  ListingType, Listing, entity_types_by_listing_type, create_element_doc, ElementChange, to_ordinal,
  to_list, to_comment, update_element_doc,
}

-- ListingWithElements
pub record ListingWithElements : Type 0 where
  pub listing : Listing
  pub elements : List ListingElement

-- validateListingOwnership
unfoldable pub validate_listing_ownership : String → Listing → Outcome (Unit {0})
validate_listing_ownership user listing = require (listing.creator == user) "wrong user" 403

-- filterFoundElementsUris, by the two arrays that it fills. keyBy keeps the last element of a uri.
unfoldable pub element_by_uri : String → List ListingElement → Option ListingElement
element_by_uri uri [] = none
element_by_uri uri (e ∷ elements) = later (element_by_uri uri elements) (e.uri == uri) e
  where
    later : Option ListingElement → Bool → ListingElement → Option ListingElement
    later (some found) same e = some found
    later none true e = some e
    later none false e = none

abbrev pub is_some {ℓ} : {A : Type ℓ} → Option A → Bool
is_some none = false
is_some (some a) = true

unfoldable pub found_elements : List ListingElement → List String → List ListingElement
found_elements elements [] = []
found_elements elements (uri ∷ uris) =
    let rest = found_elements elements uris in prepend (element_by_uri uri elements) rest
  where
    prepend : Option ListingElement → List ListingElement → List ListingElement
    prepend none rest = rest
    prepend (some e) rest = e ∷ rest

unfoldable pub not_found_uris : List ListingElement → List String → List String
not_found_uris elements = filter (λ uri. not (is_some (element_by_uri uri elements)))

-- What getEntitiesByUris answers for a uri: the type of the entity, if it is found
abbrev pub EntityTypes : Type 0
EntityTypes = String → Option String

abbrev wrong_type : ListingType → Option String → Bool
wrong_type type none = false
wrong_type type (some t) = not (includes (entity_types_by_listing_type type) t)

-- validateEntitiesCanBeAdded
unfoldable pub validate_entities_can_be_added :
    EntityTypes → List String → ListingType → Outcome (Unit {0})
validate_entities_can_be_added types uris type = do
  require (not (any (λ uri. wrong_type type (types uri)) uris))
      "cannot add this entity type to this list" 403
  require (all (λ uri. is_some (types uri)) uris) "entities not found" 403

module _ ⦃engine : Engine⦄ where
  -- The loop of createListingElements. `ids` gives the _ids that the database makes, by the number of
  -- the documents before.
  unfoldable pub elements_to_create :
      ℕ → (ℕ → String) → Listing → List ListingElement → List String → Outcome (List ListingElement)
  elements_to_create now ids listing elements [] = ok []
  elements_to_create now ids listing elements (uri ∷ uris) = do
    doc ←
        create_element_doc now (ids (length elements)) listing.id uri
          (get_next_highest_ordinal elements)
    rest ← elements_to_create now ids listing (elements ++ doc ∷ []) uris
    ok (doc ∷ rest)

  unfoldable pub create_listing_elements :
      ℕ → (ℕ → String) → ListingWithElements → List String → String → Outcome (List ListingElement)
  create_listing_elements now ids l uris user = do
    require (l.listing.creator == user) "wrong user" 403
    elements_to_create now ids l.listing l.elements uris

  -- addListingElements: the created elements, and those that were in the list
  unfoldable pub add_listing_elements :
      ℕ
      → (ℕ → String)
      → EntityTypes
      → ListingWithElements
      → List String
      → String
      → Outcome (List ListingElement × List ListingElement)
  add_listing_elements now ids types l uris user = do
    let missing = not_found_uris l.elements uris
    validate_entities_can_be_added types missing l.listing.type
    created ← create_listing_elements now ids l missing user
    ok (created, found_elements l.elements uris)

  -- The endpoint add_elements; `none` is a listing that is not found.
  unfoldable pub add_elements :
      ℕ
      → (ℕ → String)
      → EntityTypes
      → Option ListingWithElements
      → List String
      → String
      → Outcome (List ListingElement × List ListingElement)
  add_elements now ids types none uris user = err (http "not found" 404)
  add_elements now ids types (some l) uris user = do
    validate_listing_ownership user l.listing
    add_listing_elements now ids types l uris user

-- The endpoint remove_elements: the elements to delete, and the uris of the warning
unfoldable pub remove_elements :
    Option ListingWithElements → List String → String → Outcome (List ListingElement × List String)
remove_elements none uris user = err (http "not found" 404)
remove_elements (some l) uris user = do
  validate_listing_ownership user l.listing
  let to_delete = found_elements l.elements uris
  require (not (nat_beq (length to_delete) 0)) "not found" 404
  ok (to_delete, not_found_uris l.elements uris)

-- getListingWithElements; the ownership of a listing that is not there is an attribute of undefined.
abbrev pub owned_listing : String → Option ListingWithElements → Outcome ListingWithElements
owned_listing user none = err failed
owned_listing user (some l) = validate_listing_ownership user l.listing >> ok l

-- validateUpdateListing. Its call of validateEntitiesCanBeAdded is not awaited: what that throws does
-- not stop the update.
unfoldable pub validate_update_listing :
    String
    → ListingElement
    → Option ListingWithElements
    → Option ListingWithElements
    → Outcome ListingWithElements
validate_update_listing user element current recipient = do
  l ← owned_listing user current
  r ← owned_listing user recipient
  require (not (r.listing.id == l.listing.id)) "element already belongs to the list" 400
  require (nat_beq (length (found_elements r.elements (element.uri ∷ []))) 0)
      "element is already in the list" 400
  ok r

-- `pick(params, attributes.updatable)`, of the parameters list, ordinal and comment
abbrev picked {ℓ} : {A : Type ℓ} → (A → ElementChange) → Option A → List ElementChange
picked change none = []
picked change (some a) = change a ∷ []

unfoldable pub new_attributes : Option String → Option ℕ → Option String → List ElementChange
new_attributes list ordinal comment =
    picked to_list list ++ (picked to_ordinal ordinal ++ picked to_comment comment)

-- The endpoint update_element, after the check of the comment for spam, with the listings by their
-- ids. With an ordinal, the parameter `list` is not looked at before the update.
module _ ⦃engine : Engine⦄ (now : ℕ) (listings : String → Option ListingWithElements) where
  unfoldable pub update_element_of :
      ListingElement → String → Option ℕ → Option String → Option String → Outcome ListingElement
  unfolding new_attributes
  update_element_of element user (some ordinal) comment list = do
    l ← owned_listing user (listings element.list)
    update_element_doc now (new_attributes list (some ordinal) comment) element l.elements
  update_element_of element user none comment (some list) = do
    r ← validate_update_listing user element (listings element.list) (listings list)
    update_element_doc now (new_attributes (some list) (some (length r.elements + 1)) comment)
        element r.elements
  update_element_of element user none comment none = do
    l ← owned_listing user (listings element.list)
    update_element_doc now (new_attributes none none comment) element []

  unfoldable pub update_element :
      Option ListingElement
      → String
      → Option ℕ
      → Option String
      → Option String
      → Outcome ListingElement
  unfolding update_element_of
  update_element none user ordinal comment list = err (http "not found" 404)
  update_element (some element) user ordinal comment list =
      update_element_of element user ordinal comment list
