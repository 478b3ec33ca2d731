-- ===== src/Listings/Moves.antt =====
-- Where findNewOrdinal (server/lib/utils/lexicographic_ordinal.ts) puts an element of a listing.
use inventaire.Base.{
  ℕ, zero, suc, ◌<◌, ◌≤◌, ◌≡◌, refl, ap, sym, arith, ◌∙◌, true, not, Option, none, some, List, [],
  ◌∷◌, length, get_elem?, take, drop, ok, string_eq,
}
use inventaire.Listings.Ordinals.{Ordinal, ordinal_ltb, find_ordinal_between}
use inventaire.Listings.Order.{beq_of_ltb, beq_of_gt}
use inventaire.Listings.Between.{IsPlain}
use inventaire.Listings.Placed.{find_ordinal_between_places}
use inventaire.Listings.Positions.{
  Engine, is_safe, ListingElement, get_next_highest_ordinal, or_next_highest, unless_same,
  find_new_lexicographic_ordinal,
}
use inventaire.Listings.Room.{
  HasRoom, last_ordinal, get_next_highest_ordinal-Follows, before, at, gap, sides, Below, Above,
}

-- An ordinal for the position k among the elements
abbrev pub IsPlacedAt : ℕ → List ListingElement → Ordinal → Type 0
IsPlacedAt k elements o = Below o (take k elements) × Above o (drop k elements)

at-or_next_highest :
    ⦃engine : Engine⦄
    → (o : Option ListingElement) (elements : List ListingElement)
    → at o (get_next_highest_ordinal elements) ≡ or_next_highest o elements
at-or_next_highest none elements = refl
at-or_next_highest (some e) elements = refl

-- The element before a position
before_some :
    (b : Ordinal) (k : ℕ) (elements : List ListingElement)
    → k < length elements
    → (e : ListingElement) × (get_elem? elements k ≡ some e)
      × (before b (suc k) elements ≡ e.ordinal)
unfolding before
before_some b k [] h = absurd (omega arith)
before_some b zero (e ∷ elements) h = (e, refl, refl)
before_some b (suc k) (e ∷ elements) h = before_some e.ordinal k elements (omega arith)

unless_same-above :
    (o : Option ListingElement) (top r : Ordinal)
    → ordinal_ltb r (at o top) ≡ true
    → unless_same o r ≡ some r
unless_same-above none top r h = refl
unless_same-above (some e) top r h = rw (beq_of_gt e.ordinal r h) refl

-- An ordinal between the neighbours is the result.
reached :
    ⦃engine : Engine⦄
    → (k : ℕ) (elements : List ListingElement) (o : Ordinal) → k ≤ length elements
    → find_ordinal_between
        (before (0 ∷ []) k elements)
        (at (get_elem? elements k) (get_next_highest_ordinal elements))
      ≡ ok o
    → ordinal_ltb (before (0 ∷ []) k elements) o ≡ true
    → ordinal_ltb o (at (get_elem? elements k) (get_next_highest_ordinal elements)) ≡ true
    → find_new_lexicographic_ordinal k elements ≡ ok (some o)
unfolding find_new_lexicographic_ordinal before
reached zero elements o le found low high =
    let top = get_next_highest_ordinal elements in
    let same = at-or_next_highest (get_elem? elements 0) elements in
    let found' = ap (λ b. find_ordinal_between (0 ∷ []) b) (sym same) ∙ found in
    rw (found', unless_same-above (get_elem? elements 0) top o high) refl
reached (suc k) elements o le found low high =
    let (e, got, is_before) = before_some (0 ∷ []) k elements (omega arith) in
    let same = at-or_next_highest (get_elem? elements (suc k)) elements in
    let after = or_next_highest (get_elem? elements (suc k)) elements in
    let found' : find_ordinal_between e.ordinal after ≡ ok o =
      (λ i. find_ordinal_between (sym is_before i) (sym same i)) ∙ found in
    let low' : ordinal_ltb e.ordinal o ≡ true = ap (λ a. ordinal_ltb a o) (sym is_before) ∙ low in
    rw (got, found', beq_of_ltb e.ordinal o low') refl

-- findNewLexicographicOrdinal finds an ordinal for each position; for the last one, after a safe ordinal.
pub place :
    ⦃engine : Engine⦄
    → (k : ℕ) (elements : List ListingElement) → HasRoom (0 ∷ []) elements
    → (length elements ≤ k → is_safe (last_ordinal (0 ∷ []) elements) ≡ true)
    → k ≤ length elements
    → (o : Ordinal) × (find_new_lexicographic_ordinal k elements ≡ ok (some o))
      × IsPlain o
      × IsPlacedAt k elements o
place k elements room safe le =
    let top = get_next_highest_ordinal elements in
    let a = before (0 ∷ []) k elements in
    let b = at (get_elem? elements k) top in
    let (plain, follows) =
      gap (0 ∷ []) k elements top (omega arith, tt) room
        (λ l. get_next_highest_ordinal-Follows elements room (safe l)) le in
    let (o, found, placed) = find_ordinal_between_places a b plain follows.2 follows.0 in
    let high : ordinal_ltb o b ≡ true = placed.1 ∙ ap not follows.1 in
    let (_, below, above) = sides (0 ∷ []) k elements top o room placed.0 high in
    (o, reached k elements o le found placed.0 high, placed.2, (below, above))
