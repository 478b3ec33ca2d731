-- ===== src/Entities/Merged.antt =====
-- The values of one property after mergeClaims and mergePropertyClaims (server/models/entity.ts).
use inventaire.Base.{
  String, Bool, true, false, List, [], ◌∷◌, ◌++◌, ◌==◌, string_eq, ◌&&◌, ◌||◌, any, if◌then◌else◌,
  ◌≡◌, ◌∙◌, refl, ap, subst, arith, eq_iff, Bool-cases, inl, inr,
}
use inventaire.Couch.{memory_lookup, memory_put, memory_lookup-put}
use inventaire.Entities.{
  ClaimValue, value_eq, value_beq_iff, Claim, Claims, get_claim_value, has_value, is_non_empty,
}
use inventaire.Entities.Edits.{or_empty}
use inventaire.Entities.Merge.{
  Constraints, merge_claim_references, merge_into, merge_claim, merge_property_claims, merge_claims,
}

references-value : (c d : Claim) → get_claim_value (merge_claim_references c d) ≡ get_claim_value d
unfolding merge_claim_references
references-value c d = ground arith

any-merge_into :
    (v : ClaimValue) (c : Claim) (to : List Claim)
    → any (has_value v) (merge_into c to) ≡ any (has_value v) to
unfolding merge_into any
any-merge_into v c [] = refl
any-merge_into v c (d ∷ to) = elim (Bool-cases (has_value (get_claim_value c) d)) [
  | inl e ↦ rw e (ap (λ x. (x == v) || any (has_value v) to) (references-value c d))
  | inr e ↦ rw e (ap (λ x. has_value v d || x) (any-merge_into v c to))
]

any-push_claim :
    (v : ClaimValue) (to : List Claim) (c : Claim)
    → any (has_value v) (to ++ c ∷ []) ≡ (any (has_value v) to || has_value v c)
unfolding any
any-push_claim v [] c = ground arith
any-push_claim v (d ∷ to) c = ground (arith, any-push_claim v to c)

-- A claim whose value is there adds none.
there :
    (v : ClaimValue) (c : Claim) (to : List Claim)
    → any (has_value (get_claim_value c)) to ≡ true
    → any (has_value v) to ≡ (any (has_value v) to || has_value v c)
there v c to h = elim (Bool-cases (has_value v c)) [
  | inl e ↦
      let same : get_claim_value c ≡ v = (value_beq_iff (get_claim_value c) v).0 e in
      let held : any (has_value v) to ≡ true = subst (λ x. any (has_value x) to ≡ true) same h in
      rw held refl
  | inr e ↦ rw e (ground arith)
]

-- Whether the property may only hold one value, or placeholders
abbrev pub is_limited : Constraints → Bool
is_limited constraints = constraints.unique_value || constraints.has_placeholders

any-merge_claim :
    (constraints : Constraints) (v : ClaimValue) (c : Claim) (to : List Claim)
    → is_limited constraints ≡ false
    → any (has_value v) (merge_claim constraints c to) ≡ (any (has_value v) to || has_value v c)
unfolding merge_claim
any-merge_claim constraints v c to free =
    elim (Bool-cases (any (has_value (get_claim_value c)) to)) [
      | inl e ↦ rw e (any-merge_into v c to ∙ there v c to e)
      | inr e ↦
          rw (e, free)
            (elim (Bool-cases (is_non_empty to)) [
              | inl k ↦ rw k (any-push_claim v to c)
              | inr k ↦ rw k (any-push_claim v to c)
            ])
    ]

kept-merge_claim :
    (constraints : Constraints) (v : ClaimValue) (c : Claim) (to : List Claim)
    → any (has_value v) to ≡ true
    → any (has_value v) (merge_claim constraints c to) ≡ true
unfolding merge_claim
kept-merge_claim constraints v c to h = ground (arith, any-merge_into v c to, any-push_claim v to c)

nothing_new-merge_claim :
    (constraints : Constraints) (v : ClaimValue) (c : Claim) (to : List Claim)
    → any (has_value v) (merge_claim constraints c to) ≡ true
    → (any (has_value v) to || has_value v c) ≡ true
unfolding merge_claim
nothing_new-merge_claim constraints v c to h =
    ground (arith, any-merge_into v c to, any-push_claim v to c)

any-merge_property_claims :
    (constraints : Constraints) (v : ClaimValue) (from to : List Claim)
    → is_limited constraints ≡ false
    → any (has_value v) (merge_property_claims constraints from to)
      ≡ (any (has_value v) to || any (has_value v) from)
unfolding merge_property_claims any
any-merge_property_claims constraints v [] to free = ground arith
any-merge_property_claims constraints v (c ∷ from) to free =
    any-merge_property_claims constraints v from (merge_claim constraints c to) free
    ∙ ap (λ x. x || any (has_value v) from) (any-merge_claim constraints v c to free)
    ∙ ground arith

pub kept-merge_property_claims :
    (constraints : Constraints) (v : ClaimValue) (from to : List Claim)
    → any (has_value v) to ≡ true
    → any (has_value v) (merge_property_claims constraints from to) ≡ true
unfolding merge_property_claims
kept-merge_property_claims constraints v [] to h = h
kept-merge_property_claims constraints v (c ∷ from) to h =
    kept-merge_property_claims constraints v from (merge_claim constraints c to)
      (kept-merge_claim constraints v c to h)

pub nothing_new-merge_property_claims :
    (constraints : Constraints) (v : ClaimValue) (from to : List Claim)
    → any (has_value v) (merge_property_claims constraints from to) ≡ true
    → (any (has_value v) to || any (has_value v) from) ≡ true
unfolding merge_property_claims any
nothing_new-merge_property_claims constraints v [] to h = ground arith
nothing_new-merge_property_claims constraints v (c ∷ from) to h =
    let k = nothing_new-merge_property_claims constraints v from (merge_claim constraints c to) h in
    ground (arith, nothing_new-merge_claim constraints v c to)

abbrev pub held : Claims → String → ClaimValue → Bool
held claims property v = any (has_value v) (or_empty (memory_lookup claims property))

abbrev pub in_entry : String → ClaimValue → String × List Claim → Bool
in_entry property v (p, claims) = p == property && any (has_value v) claims

-- The value is given for the property by an entry of the claims.
unfoldable pub claimed : Claims → String → ClaimValue → Bool
claimed claims property v = any (in_entry property v) claims

held-put :
    (to : Claims) (p q : String) (cs : List Claim) (v : ClaimValue)
    → held (memory_put to p cs) q v ≡ (if p == q then any (has_value v) cs else held to q v)
held-put to p q cs v = elim (Bool-cases (p == q)) [
  | inl e ↦ rw (memory_lookup-put to p q cs, e) refl
  | inr e ↦ rw (memory_lookup-put to p q cs, e) refl
]

module _ (properties : String → Constraints) where
  pub entry_merged :
      (p q : String) (cs : List Claim) (to : Claims) (v : ClaimValue)
      → held
          (memory_put to p
            (merge_property_claims (properties p) cs (or_empty (memory_lookup to p))))
          q
          v
        ≡ (if p == q
            then any
                (has_value v)
                (merge_property_claims (properties q) cs (or_empty (memory_lookup to q)))
            else held to q v)
  entry_merged p q cs to v = elim (Bool-cases (p == q)) [
    | inl e ↦
        held-put to p q _ v
        ∙ (rw e (
            ap
              (λ x.
                any (has_value v)
                  (merge_property_claims (properties x) cs (or_empty (memory_lookup to x))))
              ((eq_iff p q).0 e)))
    | inr e ↦ held-put to p q _ v ∙ (rw e refl)
  ]

  pub held-merge_claims :
      (from to : Claims) (q : String) (v : ClaimValue)
      → is_limited (properties q) ≡ false
      → held (merge_claims properties from to) q v ≡ (held to q v || claimed from q v)
  unfolding merge_claims claimed any
  held-merge_claims [] to q v free = ground arith
  held-merge_claims ((p, cs) ∷ from) to q v free =
      held-merge_claims from _ q v free
      ∙ ap (λ x. x || claimed from q v) (entry_merged p q cs to v)
      ∙ ground (
        arith,
        any-merge_property_claims (properties q) v cs (or_empty (memory_lookup to q)) free,
      )
