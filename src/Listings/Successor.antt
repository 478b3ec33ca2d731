-- ===== src/Listings/Successor.antt =====
-- The ordinal after the last one (findNextLastOrdinal of server/lib/utils/lexicographic_ordinal.ts).
use inventaire.Base.{
  ℕ, zero, suc, ◌+◌, ◌-◌, ◌*◌, ◌/◌, ◌%◌, ◌<◌, ◌≤◌, ◌≡◌, refl, ap, arith, true, false, [], ◌∷◌, ◌++◌,
  length, length-append, ltb, nat_beq, Bool-cases, inl, inr, subst, ◌∙◌,
}
use inventaire.Listings.Ordinals.{Ordinal, ordinal_ltb}
use inventaire.Listings.Order.{repeat, length-repeat, ltb-append_self}
use inventaire.Listings.Difference.{extends_by_zeros}
use inventaire.Listings.Between.{IsPlain}
use inventaire.Listings.Positions.{Engine, is_safe, parse_int, to_string, find_next_last_ordinal}

-- Of two numbers of the same length, that with the lower head is lower.
parse_int_mono :
    (a b : ℕ) (xs ys : Ordinal)
    → a < b
    → length xs ≡ length ys
    → IsPlain xs
    → parse_int a xs < parse_int b ys
unfolding parse_int
parse_int_mono a b [] [] h e p = h
parse_int_mono a b [] (y ∷ ys) h e p = absurd (omega arith)
parse_int_mono a b (x ∷ xs) [] h e p = absurd (omega arith)
parse_int_mono a b (x ∷ xs) (y ∷ ys) h e p =
    parse_int_mono (a * 36 + x) (b * 36 + y) xs ys (omega (arith, p.0)) (omega arith) p.1

ltb_of_parse_int :
    (a : ℕ) (xs ys : Ordinal)
    → length xs ≡ length ys
    → IsPlain ys
    → parse_int a xs < parse_int a ys
    → ordinal_ltb xs ys ≡ true
unfolding parse_int ordinal_ltb
ltb_of_parse_int a [] [] e p h = absurd (omega arith)
ltb_of_parse_int a [] (y ∷ ys) e p h = absurd (omega arith)
ltb_of_parse_int a (x ∷ xs) [] e p h = absurd (omega arith)
ltb_of_parse_int a (x ∷ xs) (y ∷ ys) e p h = elim (Bool-cases (nat_beq x y)) [
  | inl same ↦ ground (arith, ltb_of_parse_int (a * 36 + y) xs ys (omega arith) p.1)
  | inr other ↦ ground (arith, parse_int_mono (a * 36 + y) (a * 36 + x) ys xs)
]

parse_int-zeros : (n : ℕ) (xs : Ordinal) → parse_int 0 (repeat n 0 ++ xs) ≡ parse_int 0 xs
unfolding parse_int
parse_int-zeros zero xs = refl
parse_int-zeros (suc n) xs = parse_int-zeros n xs

IsPlain-zeros : (n : ℕ) (xs : Ordinal) → IsPlain xs → IsPlain (repeat n 0 ++ xs)
IsPlain-zeros zero xs p = p
IsPlain-zeros (suc n) xs p = (omega arith, IsPlain-zeros n xs p)

-- A shorter number is lower than one with no zero at its head.
parse_int-shorter :
    (k x : ℕ) (xs ys : Ordinal)
    → length xs ≡ k + length ys
    → IsPlain ys
    → parse_int 0 ys < parse_int (suc x) xs
parse_int-shorter k x xs ys e p =
    subst (λ n. n < parse_int (suc x) xs) (parse_int-zeros k ys)
      (parse_int_mono 0 (suc x) (repeat k 0 ++ ys) xs (omega arith)
        (omega (arith, length-append (repeat k 0) ys, length-repeat k 0)) (IsPlain-zeros k ys p))

-- What `toString` gives is read back, and has no zero at its head.
parse_int-to_string :
    (fuel n : ℕ) (acc : Ordinal) → n < fuel → parse_int 0 (to_string fuel n acc) ≡ parse_int n acc
unfolding to_string parse_int
parse_int-to_string zero n acc h = absurd (omega arith)
parse_int-to_string (suc fuel) n acc h =
    let e : (n / 36) * 36 + n % 36 ≡ n = omega arith in
    let z : 0 * 36 + n ≡ n = omega arith in
    elim (Bool-cases (ltb n 36)) [
      | inl small ↦ rw small (ap (λ m. parse_int m acc) z)
      | inr large ↦ rw large (
          parse_int-to_string fuel (n / 36) ((n % 36) ∷ acc) (ground arith)
          ∙ ap (λ m. parse_int m acc) e)
    ]

IsPlain-to_string : (fuel n : ℕ) (acc : Ordinal) → IsPlain acc → IsPlain (to_string fuel n acc)
unfolding to_string
IsPlain-to_string zero n acc p = p
IsPlain-to_string (suc fuel) n acc p = elim (Bool-cases (ltb n 36)) [
  | inl small ↦ rw small (ground arith, p)
  | inr large ↦ rw large (IsPlain-to_string fuel (n / 36) ((n % 36) ∷ acc) (omega arith, p))
]

abbrev Headed : Ordinal → Type 0
Headed xs = (y : ℕ) × (ys : Ordinal) × (xs ≡ suc y ∷ ys)

to_string-Headed : (fuel n : ℕ) (acc : Ordinal) → n < fuel → 0 < n → Headed (to_string fuel n acc)
unfolding to_string
to_string-Headed zero n acc h pos = absurd (omega arith)
to_string-Headed (suc fuel) zero acc h pos = absurd (omega arith)
to_string-Headed (suc fuel) (suc n) acc h pos = elim (Bool-cases (ltb (suc n) 36)) [
  | inl small ↦ rw small (n, acc, refl)
  | inr large ↦
      rw large
        (to_string-Headed fuel (suc n / 36) ((suc n % 36) ∷ acc) (ground arith) (ground arith))
]

-- The number after a plain ordinal, if it is written no longer, comes after it.
ltb-to_string :
    (o s : Ordinal)
    → IsPlain o
    → IsPlain s
    → Headed s
    → parse_int 0 s ≡ parse_int 0 o + 1
    → length s ≤ length o
    → ordinal_ltb o s ≡ true
unfolding ordinal_ltb parse_int
ltb-to_string [] s po ps (y, ys, e) v h = absurd (omega (arith, ap (λ l. length l) e))
ltb-to_string (zero ∷ o) s po ps (y, ys, e) v h = rw e (ground arith)
ltb-to_string (suc x ∷ o) s po ps (y, ys, e) v h =
    elim (Bool-cases (nat_beq (length s) (suc (length o)))) [
      | inl same ↦ ltb_of_parse_int 0 (suc x ∷ o) s (ground arith) ps (omega (arith, v))
      | inr shorter ↦
          (let e : 0 * 36 + suc x ≡ suc x = omega arith in
            absurd (
              omega (
                arith,
                v,
                ap (λ m. parse_int m o) e,
                parse_int-shorter (length o - length s) x o s (ground arith) ps,
              )))
    ]

-- The successor that is written, if it is no longer, comes after the ordinal.
next-ltb :
    (o : Ordinal)
    → IsPlain o
    → length (to_string (parse_int 0 o + 1 + 1) (parse_int 0 o + 1) []) ≤ length o
    → ordinal_ltb o (to_string (parse_int 0 o + 1 + 1) (parse_int 0 o + 1) []) ≡ true
unfolding parse_int
next-ltb o p h =
    let n = parse_int 0 o + 1 in
    let s = to_string (n + 1) n [] in
    ltb-to_string o s p (IsPlain-to_string (n + 1) n [] tt)
      (to_string-Headed (n + 1) n [] (omega arith) (omega arith))
      (parse_int-to_string (n + 1) n [] (omega arith)) h

-- A plain ordinal of at most ten characters is safe.
pub is_safe-short : (o : Ordinal) → IsPlain o → length o ≤ 10 → is_safe o ≡ true
unfolding is_safe parse_int
is_safe-short o p h =
    let bound : parse_int 0 o < 3656158440062976 =
      parse_int-shorter (10 - length o) 0 (repeat 10 0) o (omega arith) p in
    ground (arith, bound)

-- The ordinals that end with 1 extend none by zeros, nor do those that are no longer.
extends_by_zeros-one :
    (a o : Ordinal) → ordinal_ltb a (o ++ 1 ∷ []) ≡ true → extends_by_zeros a (o ++ 1 ∷ []) ≡ false
unfolding ordinal_ltb extends_by_zeros
extends_by_zeros-one [] [] h = refl
extends_by_zeros-one [] (y ∷ o) h = ground (arith, extends_by_zeros-one [] o (below_snoc o))
  where
    below_snoc : (o : Ordinal) → ordinal_ltb [] (o ++ 1 ∷ []) ≡ true
    below_snoc [] = refl
    below_snoc (y ∷ o) = refl
extends_by_zeros-one (x ∷ []) [] h = ground arith
extends_by_zeros-one (x ∷ z ∷ a) [] h = ground arith
extends_by_zeros-one (x ∷ a) (y ∷ o) h = ground (arith, extends_by_zeros-one a o)

extends_by_zeros-shorter :
    (a b : Ordinal) → ordinal_ltb a b ≡ true → length b ≤ length a → extends_by_zeros a b ≡ false
unfolding ordinal_ltb extends_by_zeros
extends_by_zeros-shorter [] [] l h = absurd (ground arith)
extends_by_zeros-shorter [] (y ∷ b) l h = absurd (omega arith)
extends_by_zeros-shorter (x ∷ a) [] l h = refl
extends_by_zeros-shorter (x ∷ a) (y ∷ b) l h = ground (arith, extends_by_zeros-shorter a b)

-- An ordinal that may follow another, with room between
abbrev pub Follows : Ordinal → Ordinal → Type 0
Follows a b = (ordinal_ltb a b ≡ true) × (extends_by_zeros a b ≡ false) × IsPlain b

IsPlain-one : (o : Ordinal) → IsPlain o → IsPlain (o ++ 1 ∷ [])
IsPlain-one [] p = (omega arith, tt)
IsPlain-one (x ∷ o) p = (p.0, IsPlain-one o p.1)

-- The ordinal after a safe one follows it.
pub find_next_last_ordinal-Follows :
    ⦃engine : Engine⦄
    → (o : Ordinal) → IsPlain o
    → is_safe o ≡ true
    → Follows o (find_next_last_ordinal o)
unfolding find_next_last_ordinal
find_next_last_ordinal-Follows o p safe =
    let n = parse_int 0 o + 1 in
    let s = to_string (n + 1) n [] in
    let longer = ltb-append_self o 1 [] in
    elim (Bool-cases (ltb (length o) 4)) [
      | inl short ↦ rw short (longer, extends_by_zeros-one o o longer, IsPlain-one o p)
      | inr long ↦ elim (Bool-cases (ltb (length o) (length s))) [
        | inl more ↦
            rw (long, safe, more) (longer, extends_by_zeros-one o o longer, IsPlain-one o p)
        | inr same ↦
            (let after' : ordinal_ltb o s ≡ true = next-ltb o p (ground arith) in
              rw (long, safe, same)
                (
                  after',
                  extends_by_zeros-shorter o s after' (ground arith),
                  IsPlain-to_string (n + 1) n [] tt,
                ))
      ]
    ]
