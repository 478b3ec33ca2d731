-- ===== src/Entities/Claims.antt =====
-- Lists of trimmed claims without two of the same value, under the changes that updateEntityDocClaim
-- (server/models/entity.ts) makes to the claims of one property.
use inventaire.Base.{
  ℕ, zero, suc, false, List, [], ◌∷◌, ◌++◌, ◌==◌, string_eq, any, map, ◌≡◌, refl, ap, arith,
}
use inventaire.Texts.Trimming.{super_trim_twice}
use inventaire.Entities.{
  ClaimValue, text, number, value_eq, value_beq_iff, Claim, plain, object, get_claim_value,
  has_value, minimize_claim_object, trim_claim,
}
use inventaire.Entities.Edits.{assign, splice}

abbrev pub IsClean : List Claim → Type 0
IsClean [] = Unit
IsClean (c ∷ cs) =
    (any (has_value (get_claim_value c)) cs ≡ false) × (trim_claim c ≡ c) × IsClean cs

-- A claim that may join others.
abbrev pub Joins : Claim → List Claim → Type 0
Joins n cs = (any (has_value (get_claim_value n)) cs ≡ false) × (trim_claim n ≡ n)

pub any-push :
    (v : ClaimValue) (cs : List Claim) (n : Claim)
    → any (has_value v) cs ≡ false
    → has_value v n ≡ false
    → any (has_value v) (cs ++ n ∷ []) ≡ false
unfolding any
any-push v [] n h k = ground arith
any-push v (c ∷ cs) n h k = ground (arith, any-push v cs n)

pub any-assign :
    (v : ClaimValue) (cs : List Claim) (i : ℕ) (n : Claim)
    → any (has_value v) cs ≡ false
    → has_value v n ≡ false
    → any (has_value v) (assign cs i n) ≡ false
unfolding any assign
any-assign v [] i n h k = refl
any-assign v (c ∷ cs) zero n h k = ground arith
any-assign v (c ∷ cs) (suc i) n h k = ground (arith, any-assign v cs i n)

pub any-splice :
    (v : ClaimValue) (cs : List Claim) (i : ℕ)
    → any (has_value v) cs ≡ false
    → any (has_value v) (splice cs i) ≡ false
unfolding any splice
any-splice v [] i h = refl
any-splice v (c ∷ cs) zero h = ground arith
any-splice v (c ∷ cs) (suc i) h = ground (arith, any-splice v cs i)

pub apart : (v w : ClaimValue) → (v == w) ≡ false → (w == v) ≡ false
apart v w h = ground (arith, value_beq_iff v w, value_beq_iff w v)

heads_apart :
    (c : Claim) (cs : List Claim) (n : Claim)
    → any (has_value (get_claim_value n)) (c ∷ cs) ≡ false
    → (has_value (get_claim_value c) n ≡ false) × (any (has_value (get_claim_value n)) cs ≡ false)
unfolding any
heads_apart c cs n h = ground (arith, apart (get_claim_value c) (get_claim_value n))

pub IsClean-push : (cs : List Claim) (n : Claim) → Joins n cs → IsClean cs → IsClean (cs ++ n ∷ [])
unfolding any
IsClean-push [] n (h, t) k = (refl, t, tt)
IsClean-push (c ∷ cs) n (h, t) (p, q, r) =
    let (x, y) = heads_apart c cs n h in
    (any-push (get_claim_value c) cs n p x, q, IsClean-push cs n (y, t) r)

pub IsClean-assign :
    (cs : List Claim) (i : ℕ) (n : Claim) → Joins n cs → IsClean cs → IsClean (assign cs i n)
unfolding assign
IsClean-assign [] i n j k = tt
IsClean-assign (c ∷ cs) zero n (h, t) (p, q, r) = ((heads_apart c cs n h).1, t, r)
IsClean-assign (c ∷ cs) (suc i) n (h, t) (p, q, r) =
    let (x, y) = heads_apart c cs n h in
    (any-assign (get_claim_value c) cs i n p x, q, IsClean-assign cs i n (y, t) r)

pub IsClean-splice : (cs : List Claim) (i : ℕ) → IsClean cs → IsClean (splice cs i)
unfolding splice
IsClean-splice [] i k = tt
IsClean-splice (c ∷ cs) zero (p, q, r) = r
IsClean-splice (c ∷ cs) (suc i) (p, q, r) =
    (any-splice (get_claim_value c) cs i p, q, IsClean-splice cs i r)

pub map-trim_claim : (cs : List Claim) → IsClean cs → map trim_claim cs ≡ cs
map-trim_claim [] k = refl
map-trim_claim (c ∷ cs) (p, q, r) = cc (q, map-trim_claim cs r)

pub trim_claim_twice : (c : Claim) → trim_claim (trim_claim c) ≡ trim_claim c
unfolding trim_claim
trim_claim_twice (plain (text s)) = ap (λ x. plain (text x)) (super_trim_twice s)
trim_claim_twice (plain (number n)) = refl
trim_claim_twice (object (text s) refs) = ap (λ x. object (text x) refs) (super_trim_twice s)
trim_claim_twice (object (number n) refs) = refl

pub minimized-trimmed :
    (c : Claim)
    → trim_claim (minimize_claim_object (trim_claim c)) ≡ minimize_claim_object (trim_claim c)
unfolding trim_claim minimize_claim_object
minimized-trimmed (plain v) = trim_claim_twice (plain v)
minimized-trimmed (object v []) = trim_claim_twice (plain v)
minimized-trimmed (object v (ref ∷ refs)) = trim_claim_twice (object v (ref ∷ refs))

pub minimized-value : (c : Claim) → get_claim_value (minimize_claim_object c) ≡ get_claim_value c
unfolding minimize_claim_object
minimized-value (plain v) = refl
minimized-value (object v []) = refl
minimized-value (object v (ref ∷ refs)) = refl
