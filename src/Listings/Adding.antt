-- ===== src/Listings/Adding.antt =====
-- What adding elements to a listing leaves (createListingElements and addListingElements of
-- server/controllers/listings/lib/).
use inventaire.Base.{
  ℕ, ◌≡◌, refl, sym, subst, arith, String, Bool, true, false, Option, none, some, List, [], ◌∷◌,
  ◌++◌, string_eq, eq_iff, map, any, all, includes, length, ok, ◌>>=◌, bind_inv, All,
}
use mathlib.Core.List.{append_assoc, append-nil}
use inventaire.Listings.Ordinals.{Ordinal}
use inventaire.Listings.Positions.{Engine, is_safe, ListingElement, get_next_highest_ordinal}
use inventaire.Listings.Successor.{Follows}
use inventaire.Listings.Room.{HasRoom, last_ordinal, get_next_highest_ordinal-Follows}
use inventaire.Listings.Documents.{
  ListingType, Listing, create_element_doc, entity_types_by_listing_type,
}
use inventaire.Listings.Server.{
  ListingWithElements, EntityTypes, elements_to_create, create_listing_elements,
  add_listing_elements, not_found_uris, validate_entities_can_be_added,
}

HasRoom-snoc :
    (b : Ordinal) (elements : List ListingElement) (e : ListingElement)
    → HasRoom b elements
    → Follows (last_ordinal b elements) e.ordinal
    → HasRoom b (elements ++ e ∷ [])
unfolding last_ordinal
HasRoom-snoc b [] e h f = (f, tt)
HasRoom-snoc b (x ∷ elements) e h f = (h.0, HasRoom-snoc x.ordinal elements e h.1 f)

-- A document that is made for a listing
abbrev pub IsMade : ℕ → Listing → String → Ordinal → ListingElement → Type 0
IsMade now listing uri ordinal e =
    (e.list ≡ listing.id) × (e.uri ≡ uri) × (e.ordinal ≡ ordinal) × (e.created ≡ now)

create_element_doc-IsMade :
    (now : ℕ) (id : String) (listing : Listing) (uri : String) (ordinal : Ordinal)
    (e : ListingElement)
    → create_element_doc now id listing.id uri ordinal ≡ ok e
    → IsMade now listing uri ordinal e
unfolding create_element_doc
create_element_doc-IsMade now id listing uri ordinal e h = ground arith

abbrev pub uris_of : List ListingElement → List String
uris_of = map (λ (e : ListingElement). e.uri)

-- The created elements come after those of the listing, one for each uri in their order.
abbrev pub IsAdded : ℕ → Listing → List ListingElement → List String → List ListingElement → Type 0
IsAdded now listing elements uris created =
    HasRoom (0 ∷ []) (elements ++ created)
    × (uris_of created ≡ uris)
    × All (λ (e : ListingElement). (e.list ≡ listing.id) × (e.created ≡ now)) created

-- The highest ordinals that the loop starts from, at each of its rounds, are safe.
abbrev pub AreSafe : List ListingElement → List ListingElement → Type 0
AreSafe elements [] = Unit
AreSafe elements (e ∷ created) =
    (is_safe (last_ordinal (0 ∷ []) elements) ≡ true) × AreSafe (elements ++ e ∷ []) created

elements_to_create-IsAdded :
    ⦃engine : Engine⦄
    → (now : ℕ) (ids : ℕ → String) (listing : Listing) (elements : List ListingElement)
      (uris : List String) (created : List ListingElement)
    → elements_to_create now ids listing elements uris ≡ ok created
    → AreSafe elements created
    → HasRoom (0 ∷ []) elements
    → IsAdded now listing elements uris created
unfolding elements_to_create
elements_to_create-IsAdded now ids listing elements [] created h safe room =
    let e : [] ≡ created = ground arith in
    subst (IsAdded now listing elements []) e
      (subst (HasRoom (0 ∷ [])) (sym (append-nil elements)) room, refl, tt)
elements_to_create-IsAdded now ids listing elements (uri ∷ uris) created h safe room =
    let ordinal = get_next_highest_ordinal elements in
    let (doc, made, more) =
      bind_inv (create_element_doc now (ids (length elements)) listing.id uri ordinal)
        (λ doc. elements_to_create now ids listing (elements ++ doc ∷ []) uris >>= λ rest.
          ok (doc ∷ rest))
        created h in
    let (rest, run, e) : (rest : List ListingElement) × (elements_to_create now ids listing
            (elements ++ doc ∷ []) uris
          ≡ ok rest)
        × (doc ∷ rest ≡ created) =
      ground arith in
    let safe' : AreSafe elements (doc ∷ rest) = subst (AreSafe elements) (sym e) safe in
    let is_made =
      create_element_doc-IsMade now (ids (length elements)) listing uri ordinal doc made in
    let follows =
      subst (Follows (last_ordinal (0 ∷ []) elements)) (sym is_made.2)
        (get_next_highest_ordinal-Follows elements room safe'.0) in
    let (all_room, same, all_made) =
      elements_to_create-IsAdded now ids listing (elements ++ doc ∷ []) uris rest run safe'.1
        (HasRoom-snoc (0 ∷ []) elements doc room follows) in
    subst (IsAdded now listing elements (uri ∷ uris)) e (
      subst (HasRoom (0 ∷ [])) (append_assoc elements (doc ∷ []) rest) all_room,
      (λ i. is_made.1 i ∷ same i),
      ((is_made.0, is_made.3), all_made),
    )

-- A listing may hold an entity that is found and of one of the types for the listing's.
unfoldable pub can_hold : ListingType → Option String → Bool
can_hold type none = false
can_hold type (some t) = includes (entity_types_by_listing_type type) t

all-can_hold :
    (types : EntityTypes) (uris : List String) (type : ListingType)
    → validate_entities_can_be_added types uris type ≡ ok tt
    → all (λ uri. can_hold type (types uri)) uris ≡ true
unfolding validate_entities_can_be_added all any can_hold
all-can_hold types [] type h = refl
all-can_hold types (uri ∷ uris) type h = ground (arith, all-can_hold types uris type)

-- What an accepted addition passes, and the run of its loop
add_listing_elements_inv :
    ⦃engine : Engine⦄
    → (now : ℕ) (ids : ℕ → String) (types : EntityTypes) (l : ListingWithElements)
      (uris : List String) (user : String) (created found : List ListingElement)
    → add_listing_elements now ids types l uris user ≡ ok (created, found)
    → (l.listing.creator ≡ user)
      × (all (λ uri. can_hold l.listing.type (types uri)) (not_found_uris l.elements uris) ≡ true)
      × (elements_to_create now ids l.listing l.elements (not_found_uris l.elements uris)
          ≡ ok created)
unfolding add_listing_elements create_listing_elements
add_listing_elements_inv now ids types l uris user created found h =
    let missing = not_found_uris l.elements uris in
    let (valid, owned, run) : (validate_entities_can_be_added types missing l.listing.type ≡ ok tt)
        × (l.listing.creator ≡ user)
        × (elements_to_create now ids l.listing l.elements missing ≡ ok created) =
      ground (arith, eq_iff l.listing.creator user) in
    (owned, all-can_hold types missing l.listing.type valid, run)

-- In a listing whose elements have room between their ordinals, an accepted addition of elements, where
-- the number in base 36 of the last ordinal before each of the new elements and the next number are safe
-- integers, is made by the creator of the listing, for entities that are found and of a type that the
-- listing may hold; the new elements come after the others with room between the ordinals: one in the
-- list for each uri that was not there, in the order of the uris.
pub add_listing_elements-IsAdded :
    ⦃engine : Engine⦄
    → (now : ℕ) (ids : ℕ → String) (types : EntityTypes) (l : ListingWithElements)
      (uris : List String) (user : String) (created found : List ListingElement)
    → add_listing_elements now ids types l uris user ≡ ok (created, found)
    → AreSafe l.elements created
    → HasRoom (0 ∷ []) l.elements
    → (l.listing.creator ≡ user)
      × (all (λ uri. can_hold l.listing.type (types uri)) (not_found_uris l.elements uris) ≡ true)
      × IsAdded now l.listing l.elements (not_found_uris l.elements uris) created
add_listing_elements-IsAdded now ids types l uris user created found h safe room =
    let (owned, allowed, run) =
      add_listing_elements_inv now ids types l uris user created found h in
    (
      owned,
      allowed,
      elements_to_create-IsAdded now ids l.listing l.elements (not_found_uris l.elements uris)
          created run safe room,
    )
