-- ===== src/Listings/Difference.antt =====
-- Where two ordinals first differ once findOrdinalBetween (server/lib/find_ordinal.ts) has padded
-- them.
use inventaire.Base.{
  ℕ, zero, suc, ◌+◌, ◌<◌, ◌≤◌, ◌≡◌, ◌⊎◌, inl, inr, refl, ap, ◌∙◌, arith, Bool, true, false, [], ◌∷◌,
  ◌++◌, ◌&&◌, length, nat_beq, Bool-cases, nat_beq_iff,
}
use inventaire.Listings.Ordinals.{Ordinal, ordinal_ltb, pad_end}
use inventaire.Listings.Between.{IsPlain}

-- The second text is the first with only zeros after it.
unfoldable pub extends_by_zeros : Ordinal → Ordinal → Bool
extends_by_zeros [] [] = true
extends_by_zeros [] (y ∷ b) = nat_beq y 0 && extends_by_zeros [] b
extends_by_zeros (x ∷ a) [] = false
extends_by_zeros (x ∷ a) (y ∷ b) = nat_beq x y && extends_by_zeros a b

-- Whether the characters at which the padded ordinals differ are the padding of the second
abbrev pub Within : Ordinal → Ordinal → Ordinal → ℕ → Type 0
Within a b p y =
    ((rest : Ordinal) × (b ≡ p ++ y ∷ rest) × (extends_by_zeros a b ≡ false))
    ⊎ ((extends_by_zeros a b ≡ true) × (b ≡ p))

-- Where the padded ordinals first differ
pub record Difference (a b a' b' : Ordinal) : Type 0 where
  pub p : Ordinal
  pub x : ℕ
  pub y : ℕ
  pub u : Ordinal
  pub v : Ordinal
  pub first : a' ≡ p ++ x ∷ u
  pub second : b' ≡ p ++ y ∷ v
  pub lower : x < y
  pub in_range : y ≤ 36
  pub room : (0 < length u) ⊎ (x + 1 < y)
  pub begins_plain : IsPlain p
  pub ends_plain : IsPlain (x ∷ u)
  pub within : Within a b p y

next-Difference :
    (a₂ a b a' b' : Ordinal) (c : ℕ)
    → c < 36
    → extends_by_zeros a₂ (c ∷ b) ≡ extends_by_zeros a b
    → Difference a b a' b'
    → Difference a₂ (c ∷ b) (c ∷ a') (c ∷ b')
next-Difference a₂ a b a' b' c h e d = record {
  p = c ∷ d.p;
  x = d.x;
  y = d.y;
  u = d.u;
  v = d.v;
  first = ap (λ r. c ∷ r) d.first;
  second = ap (λ r. c ∷ r) d.second;
  lower = d.lower;
  in_range = d.in_range;
  room = d.room;
  begins_plain = (h, d.begins_plain);
  ends_plain = d.ends_plain;
  within = elim d.within [
    | inl (rest, ends, longer) ↦ inl (rest, ap (λ r. c ∷ r) ends, e ∙ longer)
    | inr (zeros, ends) ↦ inr (e ∙ zeros, ap (λ r. c ∷ r) ends)
  ];
}

pub length-pad_end : (n c : ℕ) (a : Ordinal) → length a ≤ n → length (pad_end n c a) ≡ n
unfolding pad_end
length-pad_end zero c [] h = refl
length-pad_end zero c (x ∷ a) h = absurd (omega arith)
length-pad_end (suc n) c [] h = omega (arith, length-pad_end n c [] (omega arith))
length-pad_end (suc n) c (x ∷ a) h = omega (arith, length-pad_end n c a (omega arith))

pub IsPlain-pad_end : (n : ℕ) (a : Ordinal) → IsPlain a → IsPlain (pad_end n 0 a)
unfolding pad_end
IsPlain-pad_end zero a h = h
IsPlain-pad_end (suc n) [] h = (omega arith, IsPlain-pad_end n [] tt)
IsPlain-pad_end (suc n) (x ∷ a) h = (h.0, IsPlain-pad_end n a h.1)

Difference-from_empty :
    (n : ℕ) (b : Ordinal)
    → length b < n
    → IsPlain b
    → Difference [] b (pad_end n 0 []) (pad_end n 36 b)
unfolding pad_end extends_by_zeros
Difference-from_empty zero b h plain = absurd (omega arith)
Difference-from_empty (suc n) [] h plain = record {
  p = [];
  x = 0;
  y = 36;
  u = pad_end n 0 [];
  v = pad_end n 36 [];
  first = refl;
  second = refl;
  lower = omega arith;
  in_range = omega arith;
  room = inr (omega arith);
  begins_plain = tt;
  ends_plain = (omega arith, IsPlain-pad_end n [] tt);
  within = inr (refl, refl);
}
Difference-from_empty (suc n) (zero ∷ b) h plain =
    next-Difference [] [] b (pad_end n 0 []) (pad_end n 36 b) 0 (omega arith) refl
      (Difference-from_empty n b (omega arith) plain.1)
Difference-from_empty (suc n) (suc y ∷ b) h plain = record {
  p = [];
  x = 0;
  y = suc y;
  u = pad_end n 0 [];
  v = pad_end n 36 b;
  first = refl;
  second = refl;
  lower = omega arith;
  in_range = omega (arith, plain.0);
  room = inl (omega (arith, length-pad_end n 0 []));
  begins_plain = tt;
  ends_plain = (omega arith, IsPlain-pad_end n [] tt);
  within = inl (b, refl, ground arith);
}

pub difference :
    (n : ℕ) (a b : Ordinal)
    → length a < n
    → length b < n
    → IsPlain a
    → IsPlain b
    → ordinal_ltb a b ≡ true
    → Difference a b (pad_end n 0 a) (pad_end n 36 b)
unfolding pad_end extends_by_zeros ordinal_ltb
difference n [] b ha hb pa pb low = Difference-from_empty n b hb pb
difference n (x ∷ a) [] ha hb pa pb low = absurd (ground arith)
difference zero (x ∷ a) (y ∷ b) ha hb pa pb low = absurd (omega arith)
difference (suc n) (x ∷ a) (y ∷ b) ha hb pa pb low = elim (Bool-cases (nat_beq x y)) [
  | inl same ↦
      (let e : x ≡ y = (nat_beq_iff x y).0 same in
        let same' : nat_beq y y ≡ true = (nat_beq_iff y y).1 refl in
        rw e (
          next-Difference (y ∷ a) a b (pad_end n 0 a) (pad_end n 36 b) y pb.0 (rw same' refl)
            (difference n a b (omega arith) (omega arith) pa.1 pb.1 (ground arith))))
  | inr other ↦ record {
    p = [];
    x = x;
    y = y;
    u = pad_end n 0 a;
    v = pad_end n 36 b;
    first = refl;
    second = refl;
    lower = ground arith;
    in_range = omega (arith, pb.0);
    room = inl (omega (arith, length-pad_end n 0 a));
    begins_plain = tt;
    ends_plain = (pa.0, IsPlain-pad_end n a pa.1);
    within = inl (b, refl, ground arith);
  }
]
