-- ===== src/Listings/Tests.antt =====
-- A listing of three elements, and the theorems at these inputs.
use inventaire.Base.{
  ℕ, ◌≡◌, ◌⊎◌, refl, arith, String, true, Option, none, some, List, [], ◌∷◌, ◌==◌, string_eq,
  nat_eq, any, all, filter, includes, if◌then◌else◌, ok, err, http,
}
use inventaire.Validation.{is_couch_uuid, is_hex}
use inventaire.Items.Updates.{is_entity_uri, after, is_digit, is_word}
use inventaire.Listings.Ordinals.{
  Ordinal, ordinal_ltb, ordinal_beq, pad_end, find_middle_character_between, middle_character,
  longest_length, next_ordinal, scan, find_between, find_ordinal_between,
}
use inventaire.Listings.Difference.{extends_by_zeros}
use inventaire.Listings.Placed.{IsPlaced, find_ordinal_between_places}
use inventaire.Listings.Positions.{
  Engine, is_safe, ListingElement, parse_int, to_string, find_next_last_ordinal, highest_ordinal,
  get_next_highest_ordinal, remove_element, remove_element_if_necessary,
  find_new_lexicographic_ordinal, new_position, place_at, find_new_ordinal,
}
use inventaire.Listings.Successor.{is_safe-short}
use inventaire.Listings.Room.{HasRoom, last_ordinal}
use inventaire.Listings.Moves.{IsPlacedAt}
use inventaire.Listings.Moved.{find_new_ordinal_places}
use inventaire.Listings.Documents.{
  work, entity_types_by_listing_type, Listing, create_element_doc, apply_element_change,
  apply_element_changes, same_element, update_element_doc,
}
use inventaire.Listings.Server.{
  ListingWithElements, EntityTypes, element_by_uri, found_elements, not_found_uris,
  validate_entities_can_be_added, elements_to_create, create_listing_elements, add_listing_elements,
  validate_listing_ownership, validate_update_listing, new_attributes, update_element_of,
  update_element,
}
use inventaire.Listings.Adding.{IsAdded, can_hold, add_listing_elements-IsAdded}
use inventaire.Listings.Owned.{Owns, NeedsEntry, update_element-Owns}

-- '1' and '2', '1' and '10', 'zzzz'
between_1_2 : find_ordinal_between (1 ∷ []) (2 ∷ []) ≡ ok (1 ∷ 18 ∷ [])
unfolding find_ordinal_between find_between longest_length scan next_ordinal ordinal_ltb ordinal_beq
    pad_end find_middle_character_between middle_character
between_1_2 = refl

between_1_10 : find_ordinal_between (1 ∷ []) (1 ∷ 0 ∷ []) ≡ ok (1 ∷ 0 ∷ 18 ∷ [])
unfolding find_ordinal_between find_between longest_length scan next_ordinal ordinal_ltb ordinal_beq
    pad_end find_middle_character_between middle_character
between_1_10 = refl

between_equal :
    find_ordinal_between (1 ∷ []) (1 ∷ [])
    ≡ err (http "can not find an ordinal between equal ordinals" 500)
unfolding find_ordinal_between find_between ordinal_ltb ordinal_beq
between_equal = refl

-- An engine that leaves a number past the safe integers as it is: 2 ^ 53 + 1 is rounded to 2 ^ 53.
instance abbrev rounding : Engine
rounding = record { large_successor = λ ordinal. ordinal }

next_of_112z : find_next_last_ordinal (1 ∷ 1 ∷ 2 ∷ 35 ∷ []) ≡ 1 ∷ 1 ∷ 3 ∷ 0 ∷ []
unfolding find_next_last_ordinal is_safe parse_int to_string
next_of_112z = refl

next_of_zzzz : find_next_last_ordinal (35 ∷ 35 ∷ 35 ∷ 35 ∷ []) ≡ 35 ∷ 35 ∷ 35 ∷ 35 ∷ 1 ∷ []
unfolding find_next_last_ordinal is_safe parse_int to_string
next_of_zzzz = refl

abbrev favorites : String
favorites = "0123456789abcdef0123456789abcdef"

abbrev others : String
others = "fedcba9876543210fedcba9876543210"

abbrev element_of : String → String → Ordinal → ListingElement
element_of id uri ordinal = record {
  id = id;
  list = favorites;
  uri = uri;
  previous_uris = [];
  ordinal = ordinal;
  comment = none;
  created = 1;
  updated = none;
}

abbrev first : ListingElement
first = element_of "a" "wd:Q1" (1 ∷ [])

abbrev second : ListingElement
second = element_of "b" "wd:Q2" (1 ∷ 1 ∷ [])

abbrev third : ListingElement
third = element_of "c" "wd:Q3" (1 ∷ 1 ∷ 1 ∷ [])

abbrev three : List ListingElement
three = first ∷ second ∷ third ∷ []

three-HasRoom : HasRoom (0 ∷ []) three
unfolding ordinal_ltb extends_by_zeros
three-HasRoom =
    ((refl, refl, omega arith), ((refl, refl, omega arith), ((refl, refl, omega arith), tt)))

-- The third element is moved to the first position, and the first to the second.
third_to_first : find_new_ordinal "c" three 1 ≡ ok (some (0 ∷ 18 ∷ []))
unfolding find_new_ordinal place_at new_position remove_element_if_necessary remove_element any
    find_new_lexicographic_ordinal find_ordinal_between find_between longest_length scan
    next_ordinal ordinal_ltb ordinal_beq pad_end find_middle_character_between middle_character
third_to_first = refl

find_ordinal_between_places_example :
    (r : Ordinal) × (find_ordinal_between (1 ∷ []) (1 ∷ 0 ∷ []) ≡ ok r)
    × IsPlaced (1 ∷ []) (1 ∷ 0 ∷ []) r
unfolding ordinal_ltb
find_ordinal_between_places_example =
    find_ordinal_between_places (1 ∷ []) (1 ∷ 0 ∷ []) (omega arith) (omega arith) refl

find_new_ordinal_places_example :
    ((◌≡◌ {A = ℕ} 2 0) × (find_new_ordinal "a" three 3 ≡ ok none))
    ⊎ ((o : Ordinal) × (find_new_ordinal "a" three 3 ≡ ok (some o))
        × IsPlacedAt 2 (second ∷ third ∷ []) o)
unfolding last_ordinal
find_new_ordinal_places_example =
    find_new_ordinal_places first (second ∷ third ∷ []) [] three-HasRoom tt (refl, (refl, tt)) 2
      (omega arith)
      (λ _.
        is_safe-short (1 ∷ 1 ∷ 1 ∷ []) (omega arith, (omega arith, (omega arith, tt)))
          (omega arith))

abbrev listing_of : String → String → Listing
listing_of id creator = record {
  id = id;
  type = work;
  name = "favorites";
  description = "";
  creator = creator;
  visibility = [];
  created = 1;
  updated = none;
}

abbrev mine : ListingWithElements
mine = record { listing = listing_of favorites "ann"; elements = three }

abbrev theirs : ListingWithElements
theirs = record { listing = listing_of others "bob"; elements = [] }

abbrev types : EntityTypes
types uri = if uri == "wd:Q9" then some "human" else some "work"

abbrev fourth : ListingElement
fourth = record (element_of "new" "wd:Q4" (1 ∷ 1 ∷ 1 ∷ 1 ∷ [])) { created = 7 }

add_fourth :
    add_listing_elements 7 (λ n. "new") types mine ("wd:Q2" ∷ "wd:Q4" ∷ []) "ann"
    ≡ ok (fourth ∷ [], second ∷ [])
unfolding add_listing_elements create_listing_elements elements_to_create not_found_uris
    found_elements element_by_uri validate_entities_can_be_added entity_types_by_listing_type
    includes any all filter create_element_doc is_couch_uuid is_hex is_entity_uri after is_digit
    is_word get_next_highest_ordinal highest_ordinal find_next_last_ordinal ordinal_ltb
add_fourth = refl

author_refused :
    add_listing_elements 7 (λ n. "new") types mine ("wd:Q9" ∷ []) "ann"
    ≡ err (http "cannot add this entity type to this list" 403)
unfolding add_listing_elements not_found_uris element_by_uri validate_entities_can_be_added
    entity_types_by_listing_type includes any filter
author_refused = refl

add_listing_elements-IsAdded_example :
    (mine.listing.creator ≡ "ann")
    × (all
          (λ uri. can_hold mine.listing.type (types uri))
          (not_found_uris mine.elements ("wd:Q2" ∷ "wd:Q4" ∷ []))
        ≡ true)
    × IsAdded 7 mine.listing mine.elements
        (not_found_uris mine.elements ("wd:Q2" ∷ "wd:Q4" ∷ []))
        (fourth ∷ [])
unfolding is_safe parse_int last_ordinal
add_listing_elements-IsAdded_example =
    add_listing_elements-IsAdded 7 (λ n. "new") types mine ("wd:Q2" ∷ "wd:Q4" ∷ []) "ann"
      (fourth ∷ []) (second ∷ []) add_fourth (refl, tt) three-HasRoom

abbrev listings : String → Option ListingWithElements
listings id = if id == favorites then some mine else if id == others then some theirs else none

abbrev moved : ListingElement
moved = record third { ordinal = 0 ∷ 18 ∷ []; updated = some 7 }

move_third : update_element 7 listings (some third) "ann" (some 1) none none ≡ ok moved
unfolding update_element update_element_of validate_listing_ownership new_attributes
    update_element_doc apply_element_changes apply_element_change same_element find_new_ordinal
    place_at new_position remove_element_if_necessary remove_element any
    find_new_lexicographic_ordinal find_ordinal_between find_between longest_length scan
    next_ordinal ordinal_ltb ordinal_beq pad_end find_middle_character_between middle_character
move_third = refl

-- Without an ordinal, the listing of another user is refused.
theirs_refused :
    update_element 7 listings (some third) "ann" none none (some others)
    ≡ err (http "wrong user" 403)
unfolding update_element update_element_of validate_update_listing validate_listing_ownership
theirs_refused = refl

update_element-Owns_example :
    Owns 7 listings "ann" favorites × NeedsEntry 7 listings "ann" third (some 1) none
update_element-Owns_example =
    update_element-Owns 7 listings third moved "ann" (some 1) none none move_third
