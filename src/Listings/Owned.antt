-- ===== src/Listings/Owned.antt =====
-- Who may update an element, and where it may go (the endpoint update_element of
-- server/controllers/listings/update_element.ts).
use inventaire.Base.{
  ℕ, ◌+◌, ◌≡◌, refl, arith, String, true, false, not, Option, none, some, List, [], ◌∷◌, ◌==◌,
  string_eq, eq_iff, beq_refl, length, nat_beq, Outcome, ok, err, require, ◌>>=◌, ◌>>◌, bind_inv,
}
use inventaire.Validation.{is_couch_uuid}
use inventaire.Listings.Ordinals.{Ordinal, ordinal_beq}
use inventaire.Listings.Positions.{Engine, ListingElement, find_new_ordinal}
use inventaire.Listings.Documents.{
  to_ordinal, to_list, apply_element_change, apply_element_changes, same_element, same_text,
  update_element_doc,
}
use inventaire.Listings.Server.{
  ListingWithElements, update_element, update_element_of, validate_update_listing,
  validate_listing_ownership, owned_listing, new_attributes, found_elements,
}

owned_listing-inv :
    (user : String) (found : Option ListingWithElements) (l : ListingWithElements)
    → owned_listing user found ≡ ok l
    → (found ≡ some l) × (l.listing.creator ≡ user)
unfolding validate_listing_ownership
owned_listing-inv user none l h = absurd (ground arith)
owned_listing-inv user (some found) l h = ground (arith, eq_iff found.listing.creator user)

empty_of_length {ℓ} : {A : Type ℓ} (xs : List A) → nat_beq (length xs) 0 ≡ true → xs ≡ []
empty_of_length [] h = refl
empty_of_length (x ∷ xs) h = absurd (ground arith)

validate_update_listing-inv :
    (user : String) (element : ListingElement) (current recipient : Option ListingWithElements)
    (r : ListingWithElements)
    → validate_update_listing user element current recipient ≡ ok r
    → ((l : ListingWithElements) × (current ≡ some l) × (l.listing.creator ≡ user))
      × ((r : ListingWithElements) × (recipient ≡ some r)
          × (r.listing.creator ≡ user)
          × (found_elements r.elements (element.uri ∷ []) ≡ []))
unfolding validate_update_listing
validate_update_listing-inv user element current recipient r h =
    let (l, owned, rest) =
      bind_inv (owned_listing user current)
        (λ l. owned_listing user recipient >>= λ r.
          require (not (r.listing.id == l.listing.id)) "element already belongs to the list" 400
          >> (require (nat_beq (length (found_elements r.elements (element.uri ∷ []))) 0)
                "element is already in the list" 400
              >> ok r))
        r h in
    let (r', owned', rest') =
      bind_inv (owned_listing user recipient)
        (λ r.
          require (not (r.listing.id == l.listing.id)) "element already belongs to the list" 400
          >> (require (nat_beq (length (found_elements r.elements (element.uri ∷ []))) 0)
                "element is already in the list" 400
              >> ok r))
        r rest in
    let (is_l, creates) = owned_listing-inv user current l owned in
    let (is_r, creates') = owned_listing-inv user recipient r' owned' in
    (
      (l, is_l, creates),
      (
        r',
        is_r,
        creates',
        empty_of_length (found_elements r'.elements (element.uri ∷ [])) (ground arith),
      ),
    )

ordinal_beq_refl : (o : Ordinal) → ordinal_beq o o ≡ true
unfolding ordinal_beq
ordinal_beq_refl [] = refl
ordinal_beq_refl (x ∷ o) = ground (arith, ordinal_beq_refl o)

same_element_refl : (e : ListingElement) → same_element e e ≡ true
unfolding same_element
same_element_refl e =
    rw (beq_refl e.list, beq_refl e.uri, ordinal_beq_refl e.ordinal) (same e.comment)
  where
    same : (text : Option String) → same_text text text ≡ true
    same none = refl
    same (some t) = beq_refl t

-- Elements that differ, and not by their list, differ with any list.
same_element-list :
    (a b : ListingElement) (list : String)
    → (a.list == b.list) ≡ true
    → same_element a b ≡ false
    → same_element (record a { list = list }) b ≡ false
unfolding same_element
same_element-list a b list e h = ground arith

-- A change of the list goes through together with a change of the ordinal.
update_element_doc-to_list :
    ⦃engine : Engine⦄
    → (now : ℕ) (element new : ListingElement) (elements : List ListingElement) (list : String)
      (ordinal : ℕ)
    → is_couch_uuid list ≡ true
    → update_element_doc now (to_ordinal ordinal ∷ []) element elements ≡ ok new
    → update_element_doc now (to_list list ∷ to_ordinal ordinal ∷ []) element elements
      ≡ ok (record new { list = list })
unfolding update_element_doc apply_element_changes apply_element_change
update_element_doc-to_list now element new elements list ordinal uuid h =
    go (find_new_ordinal element.id elements ordinal) refl
  where
    go :
        (found : Outcome (Option Ordinal))
        → find_new_ordinal element.id elements ordinal ≡ found
        → update_element_doc now (to_list list ∷ to_ordinal ordinal ∷ []) element elements
          ≡ ok (record new { list = list })
    go (err failure) e = absurd (ground arith)
    go (ok none) e = absurd (ground (arith, same_element_refl element))
    go (ok (some o)) e = ground (
      arith,
      same_element-list (record element { ordinal = o }) element list (beq_refl element.list),
    )

module _ ⦃engine : Engine⦄ (now : ℕ) (listings : String → Option ListingWithElements) where
  -- The listing with an id is there, and the user has created it.
  abbrev pub Owns : String → String → Type 0
  Owns user id = (l : ListingWithElements) × (listings id ≡ some l) × (l.listing.creator ≡ user)

  -- The element may go to a listing: the user has created it, and it is another than that of the
  -- element and has no element of the same entity.
  abbrev pub MayEnter : String → ListingElement → String → Type 0
  MayEnter user element id =
      (r : ListingWithElements) × (listings id ≡ some r)
      × (r.listing.creator ≡ user)
      × (found_elements r.elements (element.uri ∷ []) ≡ [])

  -- What an update with these parameters needs of the listing that it names
  abbrev pub NeedsEntry : String → ListingElement → Option ℕ → Option String → Type 0
  NeedsEntry user element none (some id) = MayEnter user element id
  NeedsEntry user element none none = Unit
  NeedsEntry user element (some ordinal) list = Unit

  -- An accepted update of an element to another listing, with no ordinal
  update_element_of-moved :
      (element new : ListingElement) (user list : String) (comment : Option String)
      → update_element_of now listings element user none comment (some list) ≡ ok new
      → Owns user element.list × MayEnter user element list
  unfolding update_element_of
  update_element_of-moved element new user list comment h =
      let (r, valid, _) =
        bind_inv (validate_update_listing user element (listings element.list) (listings list))
          (λ r.
            update_element_doc now
              (new_attributes (some list) (some (length r.elements + 1)) comment) element
              r.elements)
          new h in
      validate_update_listing-inv user element (listings element.list) (listings list) r valid

  -- And to a position, or of the comment
  update_element_of-kept :
      (element new : ListingElement) (user : String) (ordinal : Option ℕ)
      (comment list : Option String)
      → (ordinal ≡ none → list ≡ none)
      → update_element_of now listings element user ordinal comment list ≡ ok new
      → Owns user element.list
  unfolding update_element_of
  update_element_of-kept element new user (some n) comment list c h =
      let (l, owned, _) =
        bind_inv (owned_listing user (listings element.list))
          (λ l. update_element_doc now (new_attributes list (some n) comment) element l.elements)
          new h in
      let (e, creates) = owned_listing-inv user (listings element.list) l owned in (l, e, creates)
  update_element_of-kept element new user none comment none c h =
      let (l, owned, _) =
        bind_inv (owned_listing user (listings element.list))
          (λ l. update_element_doc now (new_attributes none none comment) element []) new h in
      let (e, creates) = owned_listing-inv user (listings element.list) l owned in (l, e, creates)
  update_element_of-kept element new user none comment (some list) c h =
      absurd (ground (arith, c refl))

  -- An accepted update of an element is by the creator of its listing; where it names a listing to
  -- go to and no ordinal, the user has created that listing too, and it has no element of the entity.
  pub update_element-Owns :
      (element new : ListingElement) (user : String) (ordinal : Option ℕ)
      (comment list : Option String)
      → update_element now listings (some element) user ordinal comment list ≡ ok new
      → Owns user element.list × NeedsEntry user element ordinal list
  unfolding update_element
  update_element-Owns element new user (some n) comment list h = (
    update_element_of-kept element new user (some n) comment list (λ e. absurd (ground arith)) h,
    tt,
  )
  update_element-Owns element new user none comment none h =
      (update_element_of-kept element new user none comment none (λ e. refl) h, tt)
  update_element-Owns element new user none comment (some list) h =
      update_element_of-moved element new user list comment h

  -- With an ordinal the listing to go to is not looked at: for each id, an update that is accepted
  -- with the ordinal alone is accepted with the id of that listing, whoever created it and whether or
  -- not it exists, and moves the element there.
  update_element-anywhere :
      (element new : ListingElement) (user list : String) (ordinal : ℕ)
      → is_couch_uuid list ≡ true
      → update_element now listings (some element) user (some ordinal) none none ≡ ok new
      → update_element now listings (some element) user (some ordinal) none (some list)
        ≡ ok (record new { list = list })
  unfolding update_element update_element_of new_attributes
  update_element-anywhere element new user list ordinal uuid h =
      let (l, owned, run) =
        bind_inv (owned_listing user (listings element.list))
          (λ l. update_element_doc now (to_ordinal ordinal ∷ []) element l.elements) new h in
      rw owned (update_element_doc-to_list now element new l.elements list ordinal uuid run)
