-- ===== src/Listings/Between.antt =====
-- Where the ordinal stands that findOrdinalBetween (server/lib/find_ordinal.ts) makes.
use mathlib.Core.List.{append_assoc}
use inventaire.Base.{
  ℕ, zero, suc, ◌+◌, ◌<◌, ◌≤◌, ◌/◌, ◌≡◌, inl, inr, refl, ap, sym, subst, ◌∙◌, arith, true, [], ◌∷◌,
  ◌++◌, length, length-append, nat_beq, if◌then◌else◌, ok, All, Bool-cases,
}
use inventaire.Listings.Ordinals.{Ordinal, ordinal_ltb, pad_end, longest_length, find_between}
use inventaire.Listings.Scan.{scan_apart, scan_close, find_between_padded}
use inventaire.Listings.Order.{
  repeat, ltb-append, pad_end-by, length-repeat, repeat-snoc, ltb_of_append,
}

-- The characters of an ordinal come before '¤'.
abbrev pub IsPlain : Ordinal → Type 0
IsPlain = All (λ c. c < 36)

-- The number of 'z' at the beginning
abbrev pub leading_z : Ordinal → ℕ
leading_z [] = 0
leading_z (c ∷ u) = if nat_beq c 35 then suc (leading_z u) else 0

leading_z-append : (u : Ordinal) → leading_z (u ++ 0 ∷ []) ≡ leading_z u
leading_z-append [] = refl
leading_z-append (c ∷ u) = ground (arith, leading_z-append u)

pub leading_z-le : (u : Ordinal) → leading_z u ≤ length u
leading_z-le [] = omega arith
leading_z-le (c ∷ u) = ground (arith, leading_z-le u)

pub IsPlain-append : (u : Ordinal) → IsPlain u → IsPlain (u ++ 0 ∷ [])
IsPlain-append [] h = omega arith
IsPlain-append (c ∷ u) h = (h.0, IsPlain-append u h.1)

-- A text with a zero after it, taken apart
abbrev Cons : Ordinal → Type 0
Cons u = (d : ℕ) × (t : Ordinal) × (u ≡ d ∷ t)

Cons-append : (u : Ordinal) → Cons (u ++ 0 ∷ [])
Cons-append [] = (0, [], refl)
Cons-append (c ∷ u) = (c, u ++ 0 ∷ [], refl)

-- Below the ordinals that begin with `q`, there is always room before the last of them.
pub below_last :
    (fuel : ℕ) (q : Ordinal) (c : ℕ) (u : Ordinal)
    → IsPlain (c ∷ u)
    → leading_z (c ∷ u) < fuel
    → (z : ℕ) × (w : Ordinal) × (find_between fuel (q ++ c ∷ u) (q ++ repeat (suc (length u)) 36)
        ≡ ok (q ++ z ∷ w))
      × (ordinal_ltb (c ∷ u) (z ∷ w) ≡ true)
      × IsPlain (z ∷ w)
unfolding longest_length ordinal_ltb
below_last zero q c u plain h = absurd (omega arith)
below_last (suc fuel) q c u plain h =
    let a = q ++ c ∷ u in
    let b = q ++ repeat (suc (length u)) 36 in
    let u' = u ++ 0 ∷ [] in
    let v' = repeat (suc (length u)) 36 in
    let low : ordinal_ltb a b ≡ true =
      ltb-append q (c ∷ u) (repeat (suc (length u)) 36) ∙ ground arith in
    let n = length q + length u + 2 in
    let e : longest_length a b ≡ n = ground (
      arith,
      length-append q (c ∷ u),
      length-append q (36 ∷ repeat (length u) 36),
      length-repeat (length u) 36,
    ) in
    let ea : pad_end n 0 a ≡ q ++ c ∷ u' =
      pad_end-by 1 n 0 a (omega (arith, length-append q (c ∷ u)))
      ∙ append_assoc q (c ∷ u) (0 ∷ []) in
    let eb : pad_end n 36 b ≡ q ++ 36 ∷ v' =
      pad_end-by 1 n 36 b (omega (arith, length-append q v', length-repeat (length u) 36))
      ∙ append_assoc q v' (36 ∷ [])
      ∙ ap (λ r. q ++ r) (repeat-snoc (suc (length u)) 36) in
    let start = find_between_padded fuel n a b (q ++ c ∷ u') (q ++ 36 ∷ v') low e ea eb in
    elim (Bool-cases (nat_beq c 35)) [
      | inl z ↦
          (let (d, t, e') = Cons-append u in
            let size : suc (length t) ≡ suc (length u) =
              omega (arith, ap (λ l. length l) e', length-append u (0 ∷ [])) in
            let shorter : leading_z (d ∷ t) < fuel =
              subst (λ l. leading_z l < fuel) e' (ground (arith, leading_z-append u)) in
            let (z', w, found, above, bound) =
              below_last fuel (q ++ c ∷ []) d t (subst IsPlain e' (IsPlain-append u plain.1))
                shorter in
            let ends : pad_end n 36 (q ++ c ∷ []) ≡ (q ++ c ∷ []) ++ repeat (suc (length t)) 36 =
              pad_end-by (suc (length t)) n 36 (q ++ c ∷ [])
                (omega (arith, size, length-append q (c ∷ []))) in
            let begins : q ++ c ∷ u' ≡ (q ++ c ∷ []) ++ d ∷ t =
              sym (append_assoc q (c ∷ []) u') ∙ ap (λ r. (q ++ c ∷ []) ++ r) e' in
            let inner : find_between fuel (q ++ c ∷ u') (pad_end n 36 (q ++ c ∷ []))
                ≡ ok (q ++ c ∷ z' ∷ w) =
              rw (begins, ends) (found ∙ ap ok (append_assoc q (c ∷ []) (z' ∷ w))) in
            let above' : ordinal_ltb u' (z' ∷ w) ≡ true =
              ap (λ r. ordinal_ltb r (z' ∷ w)) e' ∙ above in
            (
              c,
              z' ∷ w,
              start
                  ∙ scan_close (find_between fuel) n q c 36 u' v' (z' ∷ w) (ground arith) inner
                      above',
              ground (arith, ltb_of_append u (0 ∷ []) (z' ∷ w) above'),
              (plain.0, bound),
            ))
      | inr other ↦ (
        (c + 36) / 2,
        [],
        start ∙ scan_apart (find_between fuel) n q c 36 u' v' (ground arith),
        ground arith,
        (ground arith, tt),
      )
    ]
