-- ===== src/Listings/Placed.antt =====
-- The ordinal that findOrdinalBetween (server/lib/find_ordinal.ts) makes stands between the two.
use mathlib.Core.List.{append_assoc}
use inventaire.Base.{
  ℕ, suc, ◌+◌, ◌-◌, ◌<◌, ◌≤◌, ◌/◌, ◌≡◌, ◌⊎◌, inl, inr, refl, ap, sym, subst, ◌∙◌, arith, true, not,
  [], ◌∷◌, ◌++◌, length, length-append, ltb, ok, Bool-cases,
}
use inventaire.Listings.Ordinals.{
  Ordinal, ordinal_ltb, pad_end, longest_length, find_between, find_ordinal_between, scan,
}
use inventaire.Listings.Order.{repeat, ltb-append, ltb-prefix, ltb_of_append, pad_end-by}
use inventaire.Listings.Scan.{scan_apart, scan_close, find_between_padded}
use inventaire.Listings.Between.{IsPlain, below_last, leading_z-le}
use inventaire.Listings.Difference.{extends_by_zeros, Difference, difference, length-pad_end}

IsPlain-append : (a b : Ordinal) → IsPlain a → IsPlain b → IsPlain (a ++ b)
IsPlain-append [] b ha hb = hb
IsPlain-append (c ∷ a) b ha hb = (ha.0, IsPlain-append a b ha.1 hb)

-- A plain ordinal between the two, but for the padding of the second
abbrev pub IsPlaced : Ordinal → Ordinal → Ordinal → Type 0
IsPlaced a b r =
    (ordinal_ltb a r ≡ true) × (ordinal_ltb r b ≡ not (extends_by_zeros a b)) × IsPlain r

-- What the padded ordinals' difference says of an ordinal that begins as they do
Difference-IsPlaced :
    (n : ℕ) (a b b' : Ordinal) (d : Difference a b (pad_end n 0 a) b') (z : ℕ) (w : Ordinal)
    → length a ≤ n
    → ordinal_ltb (d.x ∷ d.u) (z ∷ w) ≡ true
    → z < d.y
    → IsPlain (z ∷ w)
    → IsPlaced a b (d.p ++ z ∷ w)
unfolding ordinal_ltb
Difference-IsPlaced n a b b' d z w h above below plain = (
  ltb_of_append a (repeat (n - length a) 0) (d.p ++ z ∷ w) (
      ap (λ t. ordinal_ltb t (d.p ++ z ∷ w))
        (sym (pad_end-by (n - length a) n 0 a (omega arith)) ∙ d.first)
      ∙ ltb-append d.p (d.x ∷ d.u) (z ∷ w)
      ∙ above),
  elim d.within [
    | inl (rest, ends, longer) ↦
        (let low : ordinal_ltb (z ∷ w) (d.y ∷ rest) ≡ true = ground arith in
          rw longer (
            ap (λ t. ordinal_ltb (d.p ++ z ∷ w) t) ends
            ∙ ltb-append d.p (z ∷ w) (d.y ∷ rest)
            ∙ low))
    | inr (zeros, ends) ↦
        rw zeros (ap (λ t. ordinal_ltb (d.p ++ z ∷ w) t) ends ∙ ltb-prefix d.p (z ∷ w))
  ],
  IsPlain-append d.p (z ∷ w) d.begins_plain plain,
)

-- Two characters in order are neighbours or have another between.
apart_or_close :
    (x y : ℕ) (u : Ordinal)
    → x < y
    → (0 < length u) ⊎ (x + 1 < y)
    → (x + 1 < y) ⊎ ((y ≡ x + 1) × (c : ℕ) × (t : Ordinal) × (u ≡ c ∷ t))
apart_or_close x y u h (inr apart) = inl apart
apart_or_close x y [] h (inl room) = absurd (omega arith)
apart_or_close x y (c ∷ t) h (inl room) = elim (Bool-cases (ltb (x + 1) y)) [
  | inl apart ↦ inl (ground arith)
  | inr near ↦ inr (ground arith, c, t, refl)
]

-- The loop finds an ordinal at the first difference.
Difference-found :
    (fuel n : ℕ) (a b a' b' : Ordinal) (d : Difference a b a' b')
    → length a' ≡ n
    → n < fuel
    → (z : ℕ) × (w : Ordinal) × (scan
          (find_between fuel)
          n
          (d.p ++ d.x ∷ d.u)
          (d.p ++ d.y ∷ d.v)
          (d.p ++ d.x ∷ d.u)
          (d.p ++ d.y ∷ d.v)
          []
        ≡ ok (d.p ++ z ∷ w))
      × (ordinal_ltb (d.x ∷ d.u) (z ∷ w) ≡ true)
      × (z < d.y)
      × IsPlain (z ∷ w)
unfolding ordinal_ltb
Difference-found fuel n a b a' b' d size enough = elim (apart_or_close d.x d.y d.u d.lower d.room) [
  | inl apart ↦ (
    (d.x + d.y) / 2,
    [],
    scan_apart (find_between fuel) n d.p d.x d.y d.u d.v apart,
    ground arith,
    omega arith,
    (omega (arith, d.in_range), tt),
  )
  | inr (close, c, t, e) ↦
      (let q = d.p ++ d.x ∷ [] in
        let size' : n ≡ length q + suc (length t) = omega (
          arith,
          ap (λ l. length l) d.first,
          length-append d.p (d.x ∷ d.u),
          length-append d.p (d.x ∷ []),
          ap (λ l. length l) e,
        ) in
        let (z, w, found, above, plain) =
          below_last fuel q c t (subst IsPlain e d.ends_plain.1)
            (omega (arith, leading_z-le (c ∷ t))) in
        let begins : d.p ++ d.x ∷ d.u ≡ q ++ c ∷ t =
          sym (append_assoc d.p (d.x ∷ []) d.u) ∙ ap (λ l. q ++ l) e in
        let inner : find_between fuel (d.p ++ d.x ∷ d.u) (pad_end n 36 q)
            ≡ ok (d.p ++ d.x ∷ z ∷ w) =
          (λ i. find_between fuel (begins i) (pad_end-by (suc (length t)) n 36 q size' i))
          ∙ found
          ∙ ap ok (append_assoc d.p (d.x ∷ []) (z ∷ w)) in
        let above' : ordinal_ltb d.u (z ∷ w) ≡ true = ap (λ l. ordinal_ltb l (z ∷ w)) e ∙ above in
        (
          d.x,
          z ∷ w,
          scan_close (find_between fuel) n d.p d.x d.y d.u d.v (z ∷ w) close inner above',
          ground arith,
          d.lower,
          (d.ends_plain.0, plain),
        ))
]

-- An ordinal is found between any two ordinals in order: it comes after the first, and before the
-- second unless this is the first with only zeros after it.
pub find_ordinal_between_places :
    (a b : Ordinal)
    → IsPlain a
    → IsPlain b
    → ordinal_ltb a b ≡ true
    → (r : Ordinal) × (find_ordinal_between a b ≡ ok r) × IsPlaced a b r
unfolding find_ordinal_between longest_length
find_ordinal_between_places a b pa pb low =
    let n = longest_length a b in
    let fuel = length a + length b + 3 in
    let e : length a + length b + 4 ≡ suc fuel = omega arith in
    let d = difference n a b (ground arith) (ground arith) pa pb low in
    let (z, w, found, above, below, plain) =
      Difference-found fuel n a b (pad_end n 0 a) (pad_end n 36 b) d
        (length-pad_end n 0 a (ground arith)) (ground arith) in
    (
      d.p ++ z ∷ w,
      rw e (
          find_between_padded fuel n a b (pad_end n 0 a) (pad_end n 36 b) low refl refl refl
          ∙ (λ i. scan (find_between fuel) n (d.first i) (d.second i) (d.first i) (d.second i) [])
          ∙ found),
      Difference-IsPlaced n a b (pad_end n 36 b) d z w (ground arith) above below plain,
    )
