-- ===== src/Listings/Scan.antt =====
-- The loop of findOrdinalBetween (server/lib/find_ordinal.ts), up to the character where the two
-- ordinals first differ.
use mathlib.Core.List.{append_assoc, append-nil}
use inventaire.Base.{
  ℕ, suc, ◌+◌, ◌<◌, ◌/◌, ◌≡◌, refl, ap, sym, ◌∙◌, arith, true, false, [], ◌∷◌, ◌++◌, nat_beq,
  Outcome, ok, nat_beq_iff,
}
use inventaire.Listings.Ordinals.{
  Ordinal, ordinal_ltb, ordinal_beq, pad_end, find_middle_character_between, longest_length,
  next_ordinal, scan, find_between,
}
use inventaire.Listings.Order.{ltb-append, ltb-prefix, ltb_asymm, beq_of_ltb, beq_of_gt}

module _ (find : Ordinal → Ordinal → Outcome Ordinal) (n : ℕ) where
  -- The loop passes over a common beginning.
  pub scan-append :
      (q u v acc a b : Ordinal)
      → a ≡ acc ++ (q ++ u)
      → scan find n a b (q ++ u) (q ++ v) acc ≡ scan find n a b u v (acc ++ q)
  unfolding scan next_ordinal
  scan-append [] u v acc a b h = rw (append-nil acc) refl
  scan-append (x ∷ q) u v acc a b h =
      let e : a ≡ (acc ++ x ∷ []) ++ (q ++ u) = h ∙ sym (append_assoc acc (x ∷ []) (q ++ u)) in
      let same : nat_beq x x ≡ true = (nat_beq_iff x x).1 refl in
      let low : ordinal_ltb a (acc ++ x ∷ []) ≡ false =
        ap (λ t. ordinal_ltb t (acc ++ x ∷ [])) e ∙ ltb-prefix (acc ++ x ∷ []) (q ++ u) in
      rw (same, low)
        (scan-append q u v (acc ++ x ∷ []) a b e
          ∙ ap (λ r. scan find n a b u v r) (append_assoc acc (x ∷ []) q))

  -- It ends with the next ordinal, if this stands between the two.
  scan_ends :
      (x y : ℕ) (u v acc a b r : Ordinal)
      → next_ordinal find n a b x y acc ≡ ok r
      → ordinal_ltb a r ≡ true
      → ordinal_ltb r b ≡ true
      → scan find n a b (x ∷ u) (y ∷ v) acc ≡ ok r
  unfolding scan
  scan_ends x y u v acc a b r h low high = rw (h, low, high) refl

  -- The next ordinal at two characters with another between
  next_ordinal-apart :
      (x y : ℕ) (q u b : Ordinal)
      → x + 1 < y
      → next_ordinal find n (q ++ x ∷ u) b x y q ≡ ok (q ++ ((x + y) / 2) ∷ [])
  unfolding next_ordinal find_middle_character_between ordinal_ltb
  next_ordinal-apart x y q u b h =
      let differs : nat_beq x y ≡ false = ground arith in
      let apart : nat_beq ((x + y) / 2) x ≡ false = ground arith in
      let above : ordinal_ltb (x ∷ u) (((x + y) / 2) ∷ []) ≡ true = ground arith in
      let other : ordinal_beq (q ++ ((x + y) / 2) ∷ []) (q ++ x ∷ u) ≡ false =
        beq_of_gt (q ++ ((x + y) / 2) ∷ []) (q ++ x ∷ u)
          (ltb-append q (x ∷ u) (((x + y) / 2) ∷ []) ∙ above) in
      rw (differs, apart, other) refl

  -- And at two neighbours, where `find` is called
  next_ordinal-close :
      (x y : ℕ) (q a b r : Ordinal)
      → y ≡ x + 1
      → find a (pad_end n 36 (q ++ x ∷ [])) ≡ ok r
      → ordinal_ltb a r ≡ true
      → next_ordinal find n a b x y q ≡ ok r
  unfolding next_ordinal find_middle_character_between
  next_ordinal-close x y q a b r close h low =
      let differs : nat_beq x y ≡ false = ground arith in
      let middle : (x + y) / 2 ≡ x = omega arith in
      let same : nat_beq x x ≡ true = (nat_beq_iff x x).1 refl in
      let other : ordinal_beq r a ≡ false = beq_of_gt r a low in
      rw (differs, middle, same, h, other) refl

  module _ (p : Ordinal) (x y : ℕ) (u v : Ordinal) where
    -- The whole loop, on padded ordinals that first differ at two characters with one between
    pub scan_apart :
        x + 1 < y
        → scan find n (p ++ x ∷ u) (p ++ y ∷ v) (p ++ x ∷ u) (p ++ y ∷ v) []
          ≡ ok (p ++ ((x + y) / 2) ∷ [])
    unfolding ordinal_ltb
    scan_apart h =
        let m = (x + y) / 2 in
        let low : ordinal_ltb (x ∷ u) (m ∷ []) ≡ true = ground arith in
        let high : ordinal_ltb (m ∷ []) (y ∷ v) ≡ true = ground arith in
        scan-append p (x ∷ u) (y ∷ v) [] (p ++ x ∷ u) (p ++ y ∷ v) refl
        ∙ scan_ends x y u v p (p ++ x ∷ u) (p ++ y ∷ v) (p ++ m ∷ [])
            (next_ordinal-apart x y p u (p ++ y ∷ v) h) (ltb-append p (x ∷ u) (m ∷ []) ∙ low)
            (ltb-append p (m ∷ []) (y ∷ v) ∙ high)

    -- And at two neighbours
    pub scan_close :
        (w : Ordinal)
        → y ≡ x + 1
        → find (p ++ x ∷ u) (pad_end n 36 (p ++ x ∷ [])) ≡ ok (p ++ x ∷ w)
        → ordinal_ltb u w ≡ true
        → scan find n (p ++ x ∷ u) (p ++ y ∷ v) (p ++ x ∷ u) (p ++ y ∷ v) [] ≡ ok (p ++ x ∷ w)
    unfolding ordinal_ltb
    scan_close w close found h =
        let low : ordinal_ltb (x ∷ u) (x ∷ w) ≡ true = ground arith in
        let high : ordinal_ltb (x ∷ w) (y ∷ v) ≡ true = ground arith in
        let above = ltb-append p (x ∷ u) (x ∷ w) ∙ low in
        scan-append p (x ∷ u) (y ∷ v) [] (p ++ x ∷ u) (p ++ y ∷ v) refl
        ∙ scan_ends x y u v p (p ++ x ∷ u) (p ++ y ∷ v) (p ++ x ∷ w)
            (next_ordinal-close x y p (p ++ x ∷ u) (p ++ y ∷ v) (p ++ x ∷ w) close found above)
            above (ltb-append p (x ∷ w) (y ∷ v) ∙ high)

-- findOrdinalBetween on ordinals in order, once they are padded
pub find_between_padded :
    (fuel n : ℕ) (a b a' b' : Ordinal)
    → ordinal_ltb a b ≡ true
    → longest_length a b ≡ n
    → pad_end n 0 a ≡ a'
    → pad_end n 36 b ≡ b'
    → find_between (suc fuel) a b ≡ scan (find_between fuel) n a' b' a' b' []
unfolding find_between
find_between_padded fuel n a b a' b' low e ea eb =
    rw (ltb_asymm a b low, beq_of_ltb a b low, e, ea, eb) refl
