-- ===== src/Listings/Documents.antt =====
-- The documents of listings and of their elements (server/models/listing.ts, server/models/element.ts
-- and server/models/attributes/listing.ts), made and updated.
use Prim.Native.String.{◌++◌ as join}
use inventaire.Base.{
  ℕ, String, Bool, true, false, not, Option, none, some, List, [], ◌∷◌, ◌&&◌, ◌==◌, string_eq, all,
  length, leb, Outcome, ok, err, http, require, ◌>>=◌, ◌>>◌,
}
use inventaire.Validation.{is_couch_uuid, bounded_string}
use inventaire.Items.Updates.{is_entity_uri, is_visibility_key}
use inventaire.Listings.Ordinals.{Ordinal, ordinal_beq}
use inventaire.Listings.Positions.{Engine, ListingElement, find_new_ordinal}

-- entityTypesByListingType
pub data ListingType : Type 0 where
  work author publisher : ListingType

unfoldable pub entity_types_by_listing_type : ListingType → List String
entity_types_by_listing_type work = "work" ∷ "serie" ∷ []
entity_types_by_listing_type author = "human" ∷ []
entity_types_by_listing_type publisher = "publisher" ∷ []

pub record Listing : Type 0 where
  pub id : String
  pub type : ListingType
  pub name : String
  pub description : String
  pub creator : String
  pub visibility : List String
  pub created : ℕ
  pub updated : Option ℕ

-- validations.pass(attribute, value), on a text
abbrev pass : String → (String → Bool) → String → Outcome (Unit {0})
pass attribute test value =
    require (test value) (join "invalid " (join attribute (join ": " value))) 400

-- On the visibility keys; the message leaves out the list.
abbrev pass_visibility : List String → Outcome (Unit {0})
pass_visibility keys = require (all is_visibility_key keys) "invalid visibility" 400

-- createListingDoc of the parameters that formatNewListing of the endpoint gives, in their order. An
-- empty name is falsy and has no default, so it does not pass. `id` is the _id that the database gives.
unfoldable pub create_listing_doc :
    ℕ → String → String → Option String → List String → String → ListingType → Outcome Listing
create_listing_doc now id name description visibility creator type = do
  let text = or_empty description
  pass "name" (bounded_string 1 128) name
  pass "description" (bounded_string 0 5000) text
  pass_visibility visibility
  pass "creator" is_couch_uuid creator
  ok (record {
    id = id;
    type = type;
    name = name;
    description = text;
    creator = creator;
    visibility = visibility;
    created = now;
    updated = none;
  })
  where
    or_empty : Option String → String
    or_empty none = ""
    or_empty (some text) = text

-- An attribute passed with its new value, `to_other` for one that is not updatable
pub data ListingChange : Type 0 where
  to_description to_name to_other : String → ListingChange
  to_visibility : List String → ListingChange

abbrev updatable_listing_attribute : ListingChange → Outcome (Unit {0})
updatable_listing_attribute (to_other name) = err (http (join "invalid attribute: " name) 400)
updatable_listing_attribute _ = ok tt

unfoldable pub check_listing_attributes : List ListingChange → Outcome (Unit {0})
check_listing_attributes [] = ok tt
check_listing_attributes (change ∷ changes) =
    updatable_listing_attribute change >> check_listing_attributes changes

-- The body of the loop; an empty name is falsy and has no default, so it does not pass.
unfoldable pub apply_listing_change : ListingChange → Listing → Outcome Listing
apply_listing_change (to_description text) listing =
    pass "description" (bounded_string 0 5000) text >> ok (record listing { description = text })
apply_listing_change (to_name name) listing =
    pass "name" (bounded_string 1 128) name >> ok (record listing { name = name })
apply_listing_change (to_visibility keys) listing =
    pass_visibility keys >> ok (record listing { visibility = keys })
apply_listing_change (to_other name) listing = ok listing

unfoldable pub apply_listing_changes : List ListingChange → Listing → Outcome Listing
apply_listing_changes [] listing = ok listing
apply_listing_changes (change ∷ changes) listing =
    apply_listing_change change listing >>= λ next. apply_listing_changes changes next

unfoldable pub texts_beq : List String → List String → Bool
texts_beq [] [] = true
texts_beq [] (y ∷ ys) = false
texts_beq (x ∷ xs) [] = false
texts_beq (x ∷ xs) (y ∷ ys) = x == y && texts_beq xs ys

-- isEqual, where only the updatable attributes may differ
unfoldable pub same_listing : Listing → Listing → Bool
same_listing a b =
    a.name == b.name && a.description == b.description && texts_beq a.visibility b.visibility

-- updateListingDocAttributes
unfoldable pub update_listing_doc_attributes :
    ℕ → Listing → List ListingChange → String → Outcome Listing
update_listing_doc_attributes now listing changes creator_id = do
  require (listing.creator == creator_id) "wrong user" 403
  check_listing_attributes changes
  updated ← apply_listing_changes changes listing
  require (not (same_listing updated listing)) "nothing to update" 400
  ok (record updated { updated = some now })

-- createElementDoc; `id` is the _id that the database gives.
unfoldable pub create_element_doc : ℕ → String → String → String → Ordinal → Outcome ListingElement
create_element_doc now id list uri ordinal = do
  pass "list" is_couch_uuid list
  pass "uri" is_entity_uri uri
  require (leb 1 (length ordinal) && leb (length ordinal) 1000) "invalid ordinal" 400
  ok (record {
    id = id;
    list = list;
    uri = uri;
    previous_uris = [];
    ordinal = ordinal;
    comment = none;
    created = now;
    updated = none;
  })

-- An attribute of an element passed with its new value; a comment that is null becomes the empty one.
pub data ElementChange : Type 0 where
  to_ordinal : ℕ → ElementChange
  to_comment to_list to_uri to_unknown : String → ElementChange

abbrev set_ordinal : ListingElement → Option Ordinal → ListingElement
set_ordinal element none = element
set_ordinal element (some ordinal) = record element { ordinal = ordinal }

module _ ⦃engine : Engine⦄ where
  -- The body of the loop on the passed attributes
  unfoldable pub apply_element_change :
      ListingElement → List ListingElement → ElementChange → ListingElement → Outcome ListingElement
  apply_element_change old elements (to_ordinal inclusive) element = do
    found ← find_new_ordinal old.id elements inclusive
    ok (set_ordinal element found)
  apply_element_change old elements (to_comment text) element =
      pass "comment" (bounded_string 0 5000) text >> ok (record element { comment = some text })
  apply_element_change old elements (to_list list) element =
      pass "list" is_couch_uuid list >> ok (record element { list = list })
  apply_element_change old elements (to_uri uri) element =
      pass "uri" is_entity_uri uri >> ok (record element { uri = uri })
  apply_element_change old elements (to_unknown name) element = err (http "invalid attribute" 400)

  unfoldable pub apply_element_changes :
      ListingElement
      → List ListingElement
      → List ElementChange
      → ListingElement
      → Outcome ListingElement
  apply_element_changes old elements [] element = ok element
  apply_element_changes old elements (change ∷ changes) element =
      apply_element_change old elements change element >>= λ next.
      apply_element_changes old elements changes next

abbrev pub same_text : Option String → Option String → Bool
same_text none none = true
same_text (some a) (some b) = a == b
same_text _ _ = false

-- isEqual, where only the updatable attributes may differ
unfoldable pub same_element : ListingElement → ListingElement → Bool
same_element a b =
    a.list == b.list
    && a.uri == b.uri
    && ordinal_beq a.ordinal b.ordinal
    && same_text a.comment b.comment

module _ ⦃engine : Engine⦄ where
  -- updateElementDoc
  unfoldable pub update_element_doc :
      ℕ → List ElementChange → ListingElement → List ListingElement → Outcome ListingElement
  update_element_doc now changes old elements = do
    updated ← apply_element_changes old elements changes old
    require (not (same_element updated old)) "nothing to update" 400
    ok (record updated { updated = some now })
