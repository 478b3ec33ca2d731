-- ===== src/Listings/Room.antt =====
-- Elements in the order of their ordinals, and the place that a position names among them.
use inventaire.Base.{
  ℕ, zero, suc, ◌≤◌, ◌≡◌, refl, arith, true, Option, none, some, List, [], ◌∷◌, length, get_elem?,
  take, drop, All,
}
use inventaire.Listings.Ordinals.{Ordinal, ordinal_ltb}
use inventaire.Listings.Order.{ltb_trans}
use inventaire.Listings.Between.{IsPlain}
use inventaire.Listings.Difference.{extends_by_zeros}
use inventaire.Listings.Positions.{
  Engine, is_safe, ListingElement, highest_ordinal, get_next_highest_ordinal,
}
use inventaire.Listings.Successor.{Follows, find_next_last_ordinal-Follows}

-- The ordinals are plain and ascend from the first, and none is the one before it with only zeros
-- after it, so that there is an ordinal between.
abbrev pub HasRoom : Ordinal → List ListingElement → Type 0
HasRoom b [] = Unit
HasRoom b (e ∷ elements) = Follows b e.ordinal × HasRoom e.ordinal elements

unfoldable pub last_ordinal : Ordinal → List ListingElement → Ordinal
last_ordinal b [] = b
last_ordinal b (e ∷ elements) = last_ordinal e.ordinal elements

-- The highest ordinal is the last.
highest_ordinal-last :
    (b : Ordinal) (elements : List ListingElement)
    → HasRoom b elements
    → highest_ordinal b elements ≡ last_ordinal b elements
unfolding highest_ordinal last_ordinal
highest_ordinal-last b [] h = refl
highest_ordinal-last b (e ∷ elements) h = rw h.0.0 (highest_ordinal-last e.ordinal elements h.1)

IsPlain-last :
    (b : Ordinal) (elements : List ListingElement)
    → IsPlain b
    → HasRoom b elements
    → IsPlain (last_ordinal b elements)
unfolding last_ordinal
IsPlain-last b [] p h = p
IsPlain-last b (e ∷ elements) p h = IsPlain-last e.ordinal elements h.0.2 h.1

pub get_next_highest_ordinal-Follows :
    ⦃engine : Engine⦄
    → (elements : List ListingElement) → HasRoom (0 ∷ []) elements
    → is_safe (last_ordinal (0 ∷ []) elements) ≡ true
    → Follows (last_ordinal (0 ∷ []) elements) (get_next_highest_ordinal elements)
unfolding get_next_highest_ordinal last_ordinal ordinal_ltb extends_by_zeros
get_next_highest_ordinal-Follows [] h safe = (refl, refl, (omega arith, tt))
get_next_highest_ordinal-Follows (e ∷ elements) h safe =
    rw (highest_ordinal-last e.ordinal elements h.1) (
      find_next_last_ordinal-Follows (last_ordinal e.ordinal elements)
        (IsPlain-last e.ordinal elements h.0.2 h.1) safe)

-- The ordinal before a position, and that at it
unfoldable pub before : Ordinal → ℕ → List ListingElement → Ordinal
before b zero elements = b
before b (suc k) [] = b
before b (suc k) (e ∷ elements) = before e.ordinal k elements

abbrev pub at : Option ListingElement → Ordinal → Ordinal
at none top = top
at (some e) top = e.ordinal

-- There is room at each position.
pub gap :
    (b : Ordinal) (k : ℕ) (elements : List ListingElement) (top : Ordinal)
    → IsPlain b
    → HasRoom b elements
    → (length elements ≤ k → Follows (last_ordinal b elements) top)
    → k ≤ length elements
    → IsPlain (before b k elements) × Follows (before b k elements) (at (get_elem? elements k) top)
unfolding before last_ordinal
gap b zero [] top p h t le = (p, t (omega arith))
gap b zero (e ∷ elements) top p h t le = (p, h.0)
gap b (suc k) [] top p h t le = absurd (omega arith)
gap b (suc k) (e ∷ elements) top p h t le =
    gap e.ordinal k elements top h.0.2 h.1 (λ l. t (omega arith)) (omega arith)

abbrev pub Below : Ordinal → List ListingElement → Type 0
Below o = All (λ (e : ListingElement). ordinal_ltb e.ordinal o ≡ true)

abbrev pub Above : Ordinal → List ListingElement → Type 0
Above o = All (λ (e : ListingElement). ordinal_ltb o e.ordinal ≡ true)

Above-HasRoom :
    (o b : Ordinal) (elements : List ListingElement)
    → HasRoom b elements
    → ordinal_ltb o b ≡ true
    → Above o elements
Above-HasRoom o b [] h low = tt
Above-HasRoom o b (e ∷ elements) h low =
    let low' = ltb_trans o b e.ordinal low h.0.0 in
    (low', Above-HasRoom o e.ordinal elements h.1 low')

-- What comes between the ordinals at a position comes between the elements.
pub sides :
    (b : Ordinal) (k : ℕ) (elements : List ListingElement) (top o : Ordinal)
    → HasRoom b elements
    → ordinal_ltb (before b k elements) o ≡ true
    → ordinal_ltb o (at (get_elem? elements k) top) ≡ true
    → (ordinal_ltb b o ≡ true) × Below o (take k elements) × Above o (drop k elements)
unfolding before
sides b zero [] top o h low high = (low, tt, tt)
sides b zero (e ∷ elements) top o h low high =
    (low, tt, (high, Above-HasRoom o e.ordinal elements h.1 high))
sides b (suc k) [] top o h low high = (low, tt, tt)
sides b (suc k) (e ∷ elements) top o h low high =
    let (low', below, above) = sides e.ordinal k elements top o h.1 low high in
    (ltb_trans b e.ordinal o h.0.0 low', (low', below), above)
