-- ===== src/Listings/Ordinals.antt =====
-- The ordinals of server/lib/find_ordinal.ts. An ordinal is the list of the positions of its
-- characters in `characters`, where they stand in the order of their codes: '0' is 0, 'z' is 35, and
-- '¤', which only pads, is 36.
use inventaire.Base.{
  ℕ, zero, suc, ◌+◌, ◌/◌, Bool, true, false, List, [], ◌∷◌, ◌++◌, ◌&&◌, ◌||◌, length, ltb, nat_beq,
  if◌then◌else◌, Outcome, ok, err, http, failed, ◌>>=◌,
}

abbrev pub Ordinal : Type 0
Ordinal = List ℕ

abbrev pub first_character : ℕ
first_character = 0

abbrev pub last_character : ℕ
last_character = 36

-- `a < b` and `a === b` on texts
unfoldable pub ordinal_ltb : Ordinal → Ordinal → Bool
ordinal_ltb [] [] = false
ordinal_ltb [] (y ∷ ys) = true
ordinal_ltb (x ∷ xs) [] = false
ordinal_ltb (x ∷ xs) (y ∷ ys) = ltb x y || (nat_beq x y && ordinal_ltb xs ys)

unfoldable pub ordinal_beq : Ordinal → Ordinal → Bool
ordinal_beq [] [] = true
ordinal_beq [] (y ∷ ys) = false
ordinal_beq (x ∷ xs) [] = false
ordinal_beq (x ∷ xs) (y ∷ ys) = nat_beq x y && ordinal_beq xs ys

-- `ordinal.padEnd(n, c)`
unfoldable pub pad_end : ℕ → ℕ → Ordinal → Ordinal
pad_end zero c xs = xs
pad_end (suc n) c [] = c ∷ pad_end n c []
pad_end (suc n) c (x ∷ xs) = x ∷ pad_end n c xs

unfoldable pub find_middle_character_between : ℕ → ℕ → ℕ
find_middle_character_between a b = (a + b) / 2

unfoldable pub middle_character : ℕ
unfolding find_middle_character_between
middle_character = find_middle_character_between first_character last_character

abbrev max : ℕ → ℕ → ℕ
max a b = if ltb a b then b else a

unfoldable pub longest_length : Ordinal → Ordinal → ℕ
longest_length a b = max (max (length a) (length b)) 1 + 1

-- The padded ordinals, their length, and findOrdinalBetween for the recursive call
module _ (find : Ordinal → Ordinal → Outcome Ordinal) (n : ℕ) (a b : Ordinal) where
  -- What the body of the loop makes of `ordinal`, at the characters `x` and `y`
  unfoldable pub next_ordinal : ℕ → ℕ → Ordinal → Outcome Ordinal
  unfolding find_middle_character_between middle_character
  next_ordinal x y ordinal = if nat_beq x y then ok (ordinal ++ x ∷ []) else (do
    let m = find_middle_character_between x y
    found ←
        if nat_beq m x
        then find a (pad_end n last_character (ordinal ++ m ∷ []))
        else ok (ordinal ++ m ∷ [])
    ok (if ordinal_beq found a then found ++ middle_character ∷ [] else found))

  -- The loop, over the rests of the two ordinals
  unfoldable pub scan : Ordinal → Ordinal → Ordinal → Outcome Ordinal
  scan (x ∷ xs) (y ∷ ys) ordinal = next_ordinal x y ordinal >>= λ next.
      let rest = scan xs ys next in
      if ordinal_ltb a next && ordinal_ltb next b then ok next else rest
  scan _ _ ordinal = err (http "finished without finding an ordinal" 500)

-- findOrdinalBetween, with fuel for its recursion
unfoldable pub find_between : ℕ → Ordinal → Ordinal → Outcome Ordinal
unfolding longest_length
find_between zero a b = err failed
find_between (suc fuel) a b =
    if ordinal_ltb b a
    then err (http "expected ordinalA to come before ordinalB" 500)
    else if ordinal_beq a b
    then err (http "can not find an ordinal between equal ordinals" 500)
    else (let n = longest_length a b in
        let a' = pad_end n first_character a in
        let b' = pad_end n last_character b in scan (find_between fuel) n a' b' a' b' [])

-- A recursive call needs one more round for each 'z' that it meets, so this is enough.
unfoldable pub find_ordinal_between : Ordinal → Ordinal → Outcome Ordinal
unfolding find_between
find_ordinal_between a b = find_between (length a + length b + 4) a b
