-- ===== src/Listings/Order.antt =====
-- The order of the ordinals of listing elements, and their padding.
use inventaire.Base.{ℕ, zero, suc, ◌+◌, ◌≡◌, refl, ap, arith, true, false, [], ◌∷◌, ◌++◌, length}
use inventaire.Listings.Ordinals.{Ordinal, ordinal_ltb, ordinal_beq, pad_end}

abbrev pub repeat : ℕ → ℕ → Ordinal
repeat zero c = []
repeat (suc n) c = c ∷ repeat n c

pub ltb-append : (p a b : Ordinal) → ordinal_ltb (p ++ a) (p ++ b) ≡ ordinal_ltb a b
unfolding ordinal_ltb
ltb-append [] a b = refl
ltb-append (x ∷ p) a b = ground (arith, ltb-append p a b)

-- A text is not below a beginning of it.
pub ltb-prefix : (p a : Ordinal) → ordinal_ltb (p ++ a) p ≡ false
unfolding ordinal_ltb
ltb-prefix [] [] = refl
ltb-prefix [] (x ∷ a) = refl
ltb-prefix (x ∷ p) a = ground (arith, ltb-prefix p a)

pub ltb_irrefl : (a : Ordinal) → ordinal_ltb a a ≡ false
unfolding ordinal_ltb
ltb_irrefl [] = refl
ltb_irrefl (x ∷ a) = ground (arith, ltb_irrefl a)

pub ltb_trans :
    (a b c : Ordinal) → ordinal_ltb a b ≡ true → ordinal_ltb b c ≡ true → ordinal_ltb a c ≡ true
unfolding ordinal_ltb
ltb_trans a b [] h k = absurd (no_lower b k)
  where
    no_lower : (b : Ordinal) → ordinal_ltb b [] ≡ true → ⊥
    no_lower [] h = ground arith
    no_lower (x ∷ b) h = ground arith
ltb_trans [] b (z ∷ c) h k = refl
ltb_trans (x ∷ a) [] (z ∷ c) h k = ground arith
ltb_trans (x ∷ a) (y ∷ b) (z ∷ c) h k = ground (arith, ltb_trans a b c)

pub ltb_asymm : (a b : Ordinal) → ordinal_ltb a b ≡ true → ordinal_ltb b a ≡ false
unfolding ordinal_ltb
ltb_asymm [] [] h = refl
ltb_asymm [] (y ∷ b) h = refl
ltb_asymm (x ∷ a) [] h = ground arith
ltb_asymm (x ∷ a) (y ∷ b) h = ground (arith, ltb_asymm a b)

pub beq_of_ltb : (a b : Ordinal) → ordinal_ltb a b ≡ true → ordinal_beq a b ≡ false
unfolding ordinal_ltb ordinal_beq
beq_of_ltb [] [] h = ground arith
beq_of_ltb [] (y ∷ b) h = refl
beq_of_ltb (x ∷ a) [] h = refl
beq_of_ltb (x ∷ a) (y ∷ b) h = ground (arith, beq_of_ltb a b)

pub beq_of_gt : (a b : Ordinal) → ordinal_ltb b a ≡ true → ordinal_beq a b ≡ false
unfolding ordinal_ltb ordinal_beq
beq_of_gt [] [] h = ground arith
beq_of_gt [] (y ∷ b) h = refl
beq_of_gt (x ∷ a) [] h = refl
beq_of_gt (x ∷ a) (y ∷ b) h = ground (arith, beq_of_gt a b)

pub pad_end-add : (n c : ℕ) (q : Ordinal) → pad_end (length q + n) c q ≡ q ++ repeat n c
unfolding pad_end
pad_end-add zero c [] = refl
pad_end-add (suc n) c [] = ground (arith, pad_end-add n c [])
pad_end-add n c (x ∷ q) =
    let e : length (x ∷ q) + n ≡ suc (length q + n) = omega arith in
    rw e (ap (λ r. x ∷ r) (pad_end-add n c q))

pub length-repeat : (n c : ℕ) → length (repeat n c) ≡ n
length-repeat zero c = refl
length-repeat (suc n) c = omega (arith, length-repeat n c)

pub repeat-snoc : (n c : ℕ) → repeat n c ++ c ∷ [] ≡ c ∷ repeat n c
repeat-snoc zero c = refl
repeat-snoc (suc n) c = ap (λ r. c ∷ r) (repeat-snoc n c)

pub pad_end-by : (k n c : ℕ) (q : Ordinal) → n ≡ length q + k → pad_end n c q ≡ q ++ repeat k c
pad_end-by k n c q h = rw h (pad_end-add k c q)

-- The beginning of a text is below what the text is below.
pub ltb_of_append : (a s b : Ordinal) → ordinal_ltb (a ++ s) b ≡ true → ordinal_ltb a b ≡ true
unfolding ordinal_ltb
ltb_of_append [] [] b h = h
ltb_of_append [] (x ∷ s) [] h = ground arith
ltb_of_append [] (x ∷ s) (y ∷ b) h = refl
ltb_of_append (x ∷ a) s [] h = ground arith
ltb_of_append (x ∷ a) s (y ∷ b) h = ground (arith, ltb_of_append a s b)

pub ltb-append_self : (a : Ordinal) (x : ℕ) (b : Ordinal) → ordinal_ltb a (a ++ x ∷ b) ≡ true
unfolding ordinal_ltb
ltb-append_self [] x b = refl
ltb-append_self (y ∷ a) x b = ground (arith, ltb-append_self a x b)
