-- ===== src/Entities/Places.antt =====
-- Which claim an assignment and a splice of a list of claims replace and remove (updateEntityDocClaim of
-- server/models/entity.ts).
use inventaire.Base.{
  ℕ, zero, suc, Bool, false, Option, none, some, List, [], ◌∷◌, ◌++◌, ◌==◌, string_eq, ◌&&◌, ◌||◌,
  not, any, ◌≡◌, ◌≢◌, ◌∙◌, refl, sym, ap, subst, arith, Bool-cases, inl, inr,
}
use inventaire.Entities.{
  ClaimValue, value_eq, value_beq_iff, Claim, get_claim_value, has_value, get_claim_index,
}
use inventaire.Entities.Edits.{assign, splice}
use inventaire.Entities.Claims.{IsClean}

-- The value is that of the claim.
abbrev pub is_of : Option Claim → ClaimValue → Bool
is_of none v = false
is_of (some c) v = has_value v c

pub any-append_one :
    (v : ClaimValue) (cs : List Claim) (n : Claim)
    → any (has_value v) (cs ++ n ∷ []) ≡ (has_value v n || any (has_value v) cs)
unfolding any
any-append_one v [] n = ground arith
any-append_one v (c ∷ cs) n = ground (arith, any-append_one v cs n)

empty_index : (o : ClaimValue) (i : ℕ) → get_claim_index [] o ≢ some i
unfolding get_claim_index
empty_index o i e = absurd (ground arith)

index_zero :
    (o : ClaimValue) (c : Claim) (cs : List Claim)
    → get_claim_index (c ∷ cs) o ≡ some 0
    → get_claim_value c ≡ o
unfolding get_claim_index
index_zero o c cs e = (value_beq_iff (get_claim_value c) o).0 (ground arith)

index_suc :
    (o : ClaimValue) (c : Claim) (cs : List Claim) (i : ℕ)
    → get_claim_index (c ∷ cs) o ≡ some (suc i)
    → (has_value o c ≡ false) × (get_claim_index cs o ≡ some i)
unfolding get_claim_index
index_suc o c cs i e = ground arith

-- The first claim is the one of value `o`, so no other is.
others :
    (v o : ClaimValue) (c : Claim) (cs : List Claim)
    → get_claim_value c ≡ o
    → any (has_value (get_claim_value c)) cs ≡ false
    → any (has_value v) cs ≡ (not (o == v) && (has_value v c || any (has_value v) cs))
others v o c cs e p = elim (Bool-cases (o == v)) [
  | inl same ↦
      let at : get_claim_value c ≡ v = e ∙ (value_beq_iff o v).0 same in
      let gone : any (has_value v) cs ≡ false = subst (λ x. any (has_value x) cs ≡ false) at p in
      rw (same, gone) refl
  | inr differ ↦
      let differ' : has_value v c ≡ false = subst (λ x. (x == v) ≡ false) (sym e) differ in
      rw (differ, differ') refl
]

-- A claim before the one of value `o` stays.
passed :
    (v o : ClaimValue) (c : Claim) (x : Bool)
    → has_value o c ≡ false
    → (has_value v c || (not (o == v) && x)) ≡ (not (o == v) && (has_value v c || x))
passed v o c x h = ground (
  arith,
  value_beq_iff (get_claim_value c) v,
  value_beq_iff (get_claim_value c) o,
  value_beq_iff o v,
)

pub any-assign_at :
    (v o : ClaimValue) (cs : List Claim) (i : ℕ) (n : Claim)
    → IsClean cs
    → get_claim_index cs o ≡ some i
    → any (has_value v) (assign cs i n) ≡ (has_value v n || (not (o == v) && any (has_value v) cs))
unfolding any assign
any-assign_at v o [] i n k e = absurd (empty_index o i e)
any-assign_at v o (c ∷ cs) zero n (p, q, r) e =
    ap (λ x. has_value v n || x) (others v o c cs (index_zero o c cs e) p)
any-assign_at v o (c ∷ cs) (suc i) n (p, q, r) e =
    let (h, e') = index_suc o c cs i e in
    ground (arith, any-assign_at v o cs i n r e', passed v o c (any (has_value v) cs) h)

pub any-splice_at :
    (v o : ClaimValue) (cs : List Claim) (i : ℕ)
    → IsClean cs
    → get_claim_index cs o ≡ some i
    → any (has_value v) (splice cs i) ≡ (not (o == v) && any (has_value v) cs)
unfolding any splice
any-splice_at v o [] i k e = absurd (empty_index o i e)
any-splice_at v o (c ∷ cs) zero (p, q, r) e = others v o c cs (index_zero o c cs e) p
any-splice_at v o (c ∷ cs) (suc i) (p, q, r) e =
    let (h, e') = index_suc o c cs i e in
    ap (λ x. has_value v c || x) (any-splice_at v o cs i r e')
    ∙ passed v o c (any (has_value v) cs) h
