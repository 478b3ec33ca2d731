-- ===== src/Listings/Moved.antt =====
-- Where findNewOrdinal (server/lib/utils/lexicographic_ordinal.ts) puts an element of a listing.
use inventaire.Base.{
  ℕ, zero, suc, ◌+◌, ◌<◌, ◌≤◌, ◌≡◌, ◌⊎◌, inl, inr, refl, ap, sym, arith, ◌∙◌, true, false, none,
  some, List, [], ◌∷◌, ◌++◌, length, length-append, get_elem?, take, any, ltb, nat_beq,
  if◌then◌else◌, ok, err, failed, All, Bool-cases, ◌==◌, string_eq, beq_refl, String,
}
use inventaire.Listings.Ordinals.{Ordinal, ordinal_ltb}
use inventaire.Listings.Order.{ltb_trans}
use inventaire.Listings.Difference.{extends_by_zeros}
use inventaire.Listings.Positions.{
  Engine, is_safe, ListingElement, has_id, find_new_lexicographic_ordinal, remove_element,
  remove_element_if_necessary, new_position, place_at, find_new_ordinal,
}
use inventaire.Listings.Successor.{Follows}
use inventaire.Listings.Moves.{IsPlacedAt, place}
use inventaire.Listings.Room.{HasRoom, last_ordinal, Above}

-- What extends a text by zeros leaves only such texts between.
extends_by_zeros-empty :
    (b c : Ordinal)
    → ordinal_ltb b c ≡ true
    → extends_by_zeros [] c ≡ true
    → extends_by_zeros [] b ≡ true
unfolding extends_by_zeros ordinal_ltb
extends_by_zeros-empty [] c k e = refl
extends_by_zeros-empty (y ∷ b) [] k e = absurd (ground arith)
extends_by_zeros-empty (y ∷ b) (z ∷ c) k e = ground (arith, extends_by_zeros-empty b c)

extends_by_zeros-between :
    (a b c : Ordinal)
    → ordinal_ltb a b ≡ true
    → ordinal_ltb b c ≡ true
    → extends_by_zeros a c ≡ true
    → extends_by_zeros a b ≡ true
unfolding extends_by_zeros ordinal_ltb
extends_by_zeros-between [] b c h k e = extends_by_zeros-empty b c k e
extends_by_zeros-between (x ∷ a) [] c h k e = absurd (ground arith)
extends_by_zeros-between (x ∷ a) (y ∷ b) [] h k e = absurd (ground arith)
extends_by_zeros-between (x ∷ a) (y ∷ b) (z ∷ c) h k e =
    ground (arith, extends_by_zeros-between a b c)

Follows-trans : (a b c : Ordinal) → Follows a b → Follows b c → Follows a c
Follows-trans a b c h k = (
  ltb_trans a b c h.0 k.0,
  elim (Bool-cases (extends_by_zeros a c)) [
    | inl zeros ↦ absurd (ground (arith, extends_by_zeros-between a b c h.0 k.0 zeros))
    | inr e ↦ e
  ],
  k.2,
)

-- Without an element there is room too.
HasRoom-remove :
    (b : Ordinal) (xs ys : List ListingElement) (e : ListingElement)
    → HasRoom b (xs ++ e ∷ ys)
    → HasRoom b (xs ++ ys)
HasRoom-remove b [] [] e h = tt
HasRoom-remove b [] (y ∷ ys) e h = (Follows-trans b e.ordinal y.ordinal h.0 h.1.0, h.1.1)
HasRoom-remove b (x ∷ xs) ys e h = (h.0, HasRoom-remove x.ordinal xs ys e h.1)

-- The last ordinal is that of an element after the one that is left out.
last_ordinal-remove :
    (b : Ordinal) (xs ys : List ListingElement) (e : ListingElement)
    → 0 < length ys
    → last_ordinal b (xs ++ e ∷ ys) ≡ last_ordinal b (xs ++ ys)
unfolding last_ordinal
last_ordinal-remove b [] [] e h = absurd (omega arith)
last_ordinal-remove b [] (y ∷ ys) e h = refl
last_ordinal-remove b (x ∷ xs) ys e h = last_ordinal-remove x.ordinal xs ys e h

get_elem?-past {ℓ} : {A : Type ℓ} (xs : List A) (k : ℕ) → length xs ≤ k → get_elem? xs k ≡ none
get_elem?-past [] k h = refl
get_elem?-past (x ∷ xs) zero h = absurd (omega arith)
get_elem?-past (x ∷ xs) (suc k) h = get_elem?-past xs k (omega arith)

-- The other elements have other ids.
abbrev pub Others : String → List ListingElement → Type 0
Others id = All (λ (e : ListingElement). (e.id == id) ≡ false)

module _ (element : ListingElement) (ys : List ListingElement) where
  remove_element-middle :
      (xs : List ListingElement)
      → Others element.id xs
      → remove_element element.id (xs ++ element ∷ ys) ≡ xs ++ ys
  unfolding remove_element
  remove_element-middle [] h = rw (beq_refl element.id) refl
  remove_element-middle (x ∷ xs) h = rw h.0 (ap (λ r. x ∷ r) (remove_element-middle xs h.1))

  -- The element is among the first k exactly if k is more than its position.
  any-take :
      (k : ℕ) (xs : List ListingElement)
      → Others element.id xs
      → any (λ e. e.id == element.id) (take k (xs ++ element ∷ ys)) ≡ ltb (length xs) k
  unfolding any
  any-take zero [] h = refl
  any-take zero (x ∷ xs) h = ground arith
  any-take (suc k) [] h = rw (beq_refl element.id) (ground arith)
  any-take (suc k) (x ∷ xs) h = rw h.0 (any-take k xs h.1 ∙ ground arith)

  has_id-Others :
      (k : ℕ) (xs : List ListingElement)
      → Others element.id xs
      → has_id element.id (get_elem? xs k) ≡ false
  has_id-Others k [] h = refl
  has_id-Others zero (x ∷ xs) h = h.0
  has_id-Others (suc k) (x ∷ xs) h = has_id-Others k xs h.1

  -- The element stands at its position only.
  has_id-middle :
      (k : ℕ) (xs : List ListingElement)
      → Others element.id xs
      → Others element.id ys
      → has_id element.id (get_elem? (xs ++ element ∷ ys) k) ≡ nat_beq (length xs) k
  has_id-middle zero [] h h' = beq_refl element.id
  has_id-middle (suc k) [] h h' = has_id-Others k ys h' ∙ ground arith
  has_id-middle zero (x ∷ xs) h h' = h.0 ∙ ground arith
  has_id-middle (suc k) (x ∷ xs) h h' = has_id-middle k xs h.1 h' ∙ ground arith

  -- What is placed before the element is placed among the others.
  IsPlacedAt-remove :
      (k : ℕ) (xs : List ListingElement) (o : Ordinal)
      → k ≤ length xs
      → IsPlacedAt k (xs ++ element ∷ ys) o
      → IsPlacedAt k (xs ++ ys) o
  IsPlacedAt-remove zero xs o h p = (tt, Above-remove xs p.1)
    where
      Above-remove : (xs : List ListingElement) → Above o (xs ++ element ∷ ys) → Above o (xs ++ ys)
      Above-remove [] p = p.1
      Above-remove (x ∷ xs) p = (p.0, Above-remove xs p.1)
  IsPlacedAt-remove (suc k) [] o h p = absurd (omega arith)
  IsPlacedAt-remove (suc k) (x ∷ xs) o h p =
      let q = IsPlacedAt-remove k xs o (omega arith) (p.0.1, p.1) in ((p.0.0, q.0), q.1)

  module _ ⦃engine : Engine⦄ (xs : List ListingElement)
      (room : HasRoom (0 ∷ []) (xs ++ element ∷ ys)) (h : Others element.id xs)
      (h' : Others element.id ys) where
    size : length (xs ++ element ∷ ys) ≡ length xs + length ys + 1
    size = omega (arith, length-append xs (element ∷ ys))

    -- The position for an inclusive ordinal
    new_position-in :
        (i : ℕ)
        → i ≤ length xs + length ys + 1
        → new_position (length (xs ++ element ∷ ys)) (suc i) ≡ some i
    unfolding new_position
    new_position-in i le = ground (arith, size)

    -- An element with another position gets an ordinal among those that remain.
    find_new_ordinal-other :
        (i : ℕ)
        → i ≤ length xs + length ys + 1
        → nat_beq (length xs) i ≡ false
        → find_new_ordinal element.id (xs ++ element ∷ ys) (suc i)
          ≡ find_new_lexicographic_ordinal i
              (if ltb (length xs) i then xs ++ ys else xs ++ element ∷ ys)
    unfolding find_new_ordinal place_at remove_element_if_necessary
    find_new_ordinal-other i le other =
        rw
          (
            new_position-in i le,
            has_id-middle i xs h h',
            other,
            any-take i xs h,
            remove_element-middle xs h,
          )
          refl

    -- The search for the ordinal of an element, whose listing has its elements in the order of their
    -- ordinals with room between, at a position of the listing; if that is the last one, the last ordinal
    -- and the next number in base 36 are safe integers. If the element is there, no ordinal is given; else the new ordinal is above those of the other elements
    -- before the position and below those of the elements from the position on.
    pub find_new_ordinal_places :
        (i : ℕ)
        → i ≤ length xs + length ys
        → (length xs + length ys ≤ i → is_safe (last_ordinal (0 ∷ []) (xs ++ element ∷ ys)) ≡ true)
        → ((i ≡ length xs) × (find_new_ordinal element.id (xs ++ element ∷ ys) (suc i) ≡ ok none))
          ⊎ ((o : Ordinal) × (find_new_ordinal element.id (xs ++ element ∷ ys) (suc i)
                ≡ ok (some o))
              × IsPlacedAt i (xs ++ ys) o)
    unfolding find_new_ordinal place_at
    find_new_ordinal_places i le safe = elim (Bool-cases (nat_beq (length xs) i)) [
      | inl here ↦
          inl
            (ground arith, rw (new_position-in i (omega arith), has_id-middle i xs h h', here) refl)
      | inr other ↦ elim (Bool-cases (ltb (length xs) i)) [
        | inl later ↦
            (let more : 0 < length ys = ground arith in
              let (o, found, plain, placed) =
                place i (xs ++ ys) (HasRoom-remove (0 ∷ []) xs ys element room)
                  (λ l.
                    ap is_safe (sym (last_ordinal-remove (0 ∷ []) xs ys element more))
                    ∙ safe (omega (arith, l, length-append xs ys)))
                  (omega (arith, length-append xs ys)) in
              inr (o, find_new_ordinal-other i (omega arith) other ∙ rw later found, placed))
        | inr earlier ↦
            (let (o, found, plain, placed) =
                place i (xs ++ element ∷ ys) room (λ l. absurd (omega (arith, size, l, le)))
                  (omega (arith, size)) in
              inr (
                o,
                find_new_ordinal-other i (omega arith) other ∙ rw earlier found,
                IsPlacedAt-remove i xs o (ground arith) placed,
              ))
      ]
    ]

    -- The position just after the last one: the update of any element of the listing fails, as it
    -- reads the ordinal of an element that is not there.
    find_new_ordinal-after_last :
        find_new_ordinal element.id (xs ++ element ∷ ys) (suc (suc (length xs + length ys)))
        ≡ err failed
    unfolding find_new_lexicographic_ordinal
    find_new_ordinal-after_last =
        let i = suc (length xs + length ys) in
        let later : ltb (length xs) i ≡ true = ground arith in
        let none_there =
          get_elem?-past (xs ++ ys) (length xs + length ys) (omega (arith, length-append xs ys)) in
        find_new_ordinal-other i (omega arith) (ground arith) ∙ rw (later, none_there) refl
