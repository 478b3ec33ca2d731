-- ===== src/Listings/Positions.antt =====
-- The ordinal that puts an element at a position of its listing
-- (server/lib/utils/lexicographic_ordinal.ts). The numbers are exact up to Number.MAX_SAFE_INTEGER; past
-- it they are those of the engine.
use inventaire.Base.{
  ℕ, zero, suc, ◌+◌, ◌-◌, ◌*◌, ◌/◌, ◌%◌, String, Bool, false, Option, none, some, List, [], ◌∷◌,
  ◌++◌, ◌==◌, string_eq, length, get_elem?, take, any, ltb, leb, nat_beq, if◌then◌else◌, Outcome,
  ok, err, failed, ◌>>=◌,
}
use inventaire.Listings.Ordinals.{Ordinal, ordinal_ltb, ordinal_beq, find_ordinal_between}

-- ListingElement
pub record ListingElement : Type 0 where
  pub id : String
  pub list : String
  pub uri : String
  pub previous_uris : List String
  pub ordinal : Ordinal
  pub comment : Option String
  pub created : ℕ
  pub updated : Option ℕ

-- `parseInt(ordinal, 36)`, after the characters that make `acc`, where it is a safe integer
unfoldable pub parse_int : ℕ → Ordinal → ℕ
parse_int acc [] = acc
parse_int acc (x ∷ xs) = parse_int (acc * 36 + x) xs

-- `n.toString(36)` of a safe integer, before the characters `acc`; the fuel is more than n.
unfoldable pub to_string : ℕ → ℕ → Ordinal → Ordinal
to_string zero n acc = acc
to_string (suc fuel) n acc =
    let rest = to_string fuel (n / 36) ((n % 36) ∷ acc) in if ltb n 36 then n ∷ acc else rest

-- Whether the number of an ordinal in base 36, and the next one, are safe integers
unfoldable pub is_safe : Ordinal → Bool
unfolding parse_int
is_safe ordinal = leb (parse_int 0 ordinal + 1) 9007199254740991

-- `(parseInt(ordinal, 36) + 1).toString(36)` past the safe integers, where the standard leaves both the
-- number and its figures to the engine. From some 200 characters on it is the text Infinity.
pub record Engine : Type 0 where
  pub large_successor : Ordinal → Ordinal

-- `maxBy(elements, 'ordinal').ordinal`, of the ordinals after the highest so far
unfoldable pub highest_ordinal : Ordinal → List ListingElement → Ordinal
highest_ordinal highest [] = highest
highest_ordinal highest (e ∷ elements) =
    highest_ordinal (if ordinal_ltb highest e.ordinal then e.ordinal else highest) elements

-- `elements.splice(index, 1)` at the first element with the id
unfoldable pub remove_element : String → List ListingElement → List ListingElement
remove_element id [] = []
remove_element id (e ∷ elements) = if e.id == id then elements else e ∷ remove_element id elements

unfoldable pub remove_element_if_necessary : String → List ListingElement → ℕ → List ListingElement
unfolding remove_element
remove_element_if_necessary id elements new_ordinal =
    if any (λ e. e.id == id) (take new_ordinal elements)
    then remove_element id elements
    else elements

-- The ordinal of an element that should be there
abbrev pub ordinal_of : Option ListingElement → Outcome Ordinal
ordinal_of none = err failed
ordinal_of (some e) = ok e.ordinal

-- `undefined` for a position that has the ordinal already
abbrev pub unless_same : Option ListingElement → Ordinal → Option Ordinal
unless_same none ordinal = some ordinal
unless_same (some e) ordinal = if ordinal_beq e.ordinal ordinal then none else some ordinal

abbrev pub has_id : String → Option ListingElement → Bool
has_id id none = false
has_id id (some e) = e.id == id

-- The position in the exclusive order; `none` for the negative numbers, which lead to an attribute of
-- undefined.
unfoldable pub new_position : ℕ → ℕ → Option ℕ
new_position size zero = none
new_position size (suc i) =
    if ltb size i then (if nat_beq size 0 then none else some (size - 1)) else some i

module _ ⦃engine : Engine⦄ where
  unfoldable pub find_next_last_ordinal : Ordinal → Ordinal
  unfolding parse_int to_string is_safe
  find_next_last_ordinal ordinal =
      let next_ordinal = parse_int 0 ordinal + 1 in
      let next_ordinal_str : Ordinal =
        if is_safe ordinal
        then to_string (next_ordinal + 1) next_ordinal []
        else engine.large_successor ordinal in
      if ltb (length ordinal) 4
      then ordinal ++ 1 ∷ []
      else if ltb (length ordinal) (length next_ordinal_str)
      then ordinal ++ 1 ∷ []
      else next_ordinal_str

  unfoldable pub get_next_highest_ordinal : List ListingElement → Ordinal
  unfolding find_next_last_ordinal highest_ordinal
  get_next_highest_ordinal [] = 1 ∷ []
  get_next_highest_ordinal (e ∷ elements) =
      find_next_last_ordinal (highest_ordinal e.ordinal elements)

  abbrev pub or_next_highest : Option ListingElement → List ListingElement → Ordinal
  or_next_highest none elements = get_next_highest_ordinal elements
  or_next_highest (some e) elements = e.ordinal

  unfoldable pub find_new_lexicographic_ordinal : ℕ → List ListingElement → Outcome (Option Ordinal)
  unfolding get_next_highest_ordinal find_ordinal_between
  find_new_lexicographic_ordinal zero elements = do
    ordinal ← find_ordinal_between (0 ∷ []) (or_next_highest (get_elem? elements 0) elements)
    ok (unless_same (get_elem? elements 0) ordinal)
  find_new_lexicographic_ordinal (suc precedent) elements = do
    before_ordinal ← ordinal_of (get_elem? elements precedent)
    ordinal ←
        find_ordinal_between before_ordinal
          (or_next_highest (get_elem? elements (suc precedent)) elements)
    ok (unless_same (get_elem? elements precedent) ordinal)

  unfoldable pub place_at : String → List ListingElement → Option ℕ → Outcome (Option Ordinal)
  unfolding find_new_lexicographic_ordinal remove_element_if_necessary
  place_at id elements none = err failed
  place_at id elements (some new_ordinal) =
      if has_id id (get_elem? elements new_ordinal)
      then ok none
      else find_new_lexicographic_ordinal new_ordinal
          (remove_element_if_necessary id elements new_ordinal)

  -- findNewOrdinal, of the element with the id
  unfoldable pub find_new_ordinal : String → List ListingElement → ℕ → Outcome (Option Ordinal)
  unfolding new_position place_at
  find_new_ordinal id elements inclusive_ordinal =
      place_at id elements (new_position (length elements) inclusive_ordinal)
