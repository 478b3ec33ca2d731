-- ===== src/Entities/Edited.antt =====
-- The claims of an entity after updateEntityDocClaim (server/models/entity.ts), as trimmed lists
-- without two of the same value.
use inventaire.Base.{
  ℕ, String, false, Option, none, some, List, [], ◌∷◌, ◌++◌, ◌==◌, string_eq, ok, map, ◌≡◌, ◌∙◌,
  refl, sym, subst, arith, Bool-cases, inl, inr,
}
use inventaire.Couch.{memory_lookup, memory_put, memory_lookup-put}
use inventaire.Entities.{
  value_eq, Claim, Claims, InvEntity, EntityDoc, entity, removed_placeholder, redirection,
  get_claim_value, get_claim_index, minimize_claim_object, trim_claim, assert_editable_entity,
}
use inventaire.Entities.Objects.{omit, lookup-omit}
use inventaire.Entities.Edits.{
  or_empty, set_possibly_empty_property_array, assign, splice, replace_at, replace_in,
  edited_claims, map_claim, already, Convertor, update_inferred_properties, update_entity_doc_claim,
}
use inventaire.Entities.Claims.{
  IsClean, Joins, IsClean-push, IsClean-assign, IsClean-splice, map-trim_claim, minimized-trimmed,
  minimized-value,
}

-- Each property's claims are trimmed and hold each value once.
unfoldable pub AreClean : Claims → Type 0
AreClean claims =
    (property : String) (cs : List Claim) → memory_lookup claims property ≡ some cs → IsClean cs

put-AreClean :
    (claims : Claims) (property : String) (cs : List Claim)
    → IsClean cs
    → AreClean claims
    → AreClean (memory_put claims property cs)
unfolding AreClean
put-AreClean claims property cs k h p ds e = elim (Bool-cases (property == p)) [
  | inl same ↦
      let e' : some cs ≡ some ds =
        sym (memory_lookup-put claims property p cs ∙ (rw same refl)) ∙ e in
      let eq : cs ≡ ds = ground arith in subst IsClean eq k
  | inr other ↦ h p ds (sym (memory_lookup-put claims property p cs ∙ (rw other refl)) ∙ e)
]

omit-AreClean :
    (claims : Claims) (property : String) → AreClean claims → AreClean (omit claims property)
unfolding AreClean
omit-AreClean claims property h p cs e = h p cs (ground (arith, lookup-omit claims property p))

set-AreClean :
    (claims : Claims) (property : String) (cs : List Claim)
    → IsClean cs
    → AreClean claims
    → AreClean (set_possibly_empty_property_array claims property cs)
unfolding set_possibly_empty_property_array
set-AreClean claims property [] k h = omit-AreClean claims property h
set-AreClean claims property (c ∷ cs) k h = put-AreClean claims property (c ∷ cs) k h

pub or_empty-IsClean :
    (claims : Claims) (property : String) (o : Option (List Claim))
    → AreClean claims
    → memory_lookup claims property ≡ o
    → IsClean (or_empty o)
unfolding AreClean
or_empty-IsClean claims property none h e = tt
or_empty-IsClean claims property (some cs) h e = h property cs e

abbrev MayJoin : Option Claim → List Claim → Type 0
MayJoin none cs = Unit
MayJoin (some n) cs = Joins n cs

replace_at-AreClean :
    (claims claims' : Claims) (property : String) (array : List Claim) (new : Option Claim)
    (i : Option ℕ)
    → MayJoin new array
    → IsClean array
    → AreClean claims
    → replace_at claims property array new i ≡ ok claims'
    → AreClean claims'
unfolding replace_at
replace_at-AreClean claims claims' property array new none j k h e = absurd (ground arith)
replace_at-AreClean claims claims' property array (some n) (some i) j k h e =
    let same : memory_put claims property (assign array i n) ≡ claims' = ground arith in
    subst AreClean same
      (put-AreClean claims property (assign array i n) (IsClean-assign array i n j k) h)
replace_at-AreClean claims claims' property array none (some i) j k h e =
    let same : set_possibly_empty_property_array claims property (splice (map trim_claim array) i)
        ≡ claims' =
      ground arith in
    subst AreClean same (
      set-AreClean claims property (splice (map trim_claim array) i)
        (IsClean-splice (map trim_claim array) i (subst IsClean (sym (map-trim_claim array k)) k))
        h)

replace_in-AreClean :
    (claims claims' : Claims) (property : String) (old : Claim) (new : Option Claim)
    (array : Option (List Claim))
    → MayJoin new (or_empty array)
    → IsClean (or_empty array)
    → AreClean claims
    → replace_in claims property old new array ≡ ok claims'
    → AreClean claims'
unfolding replace_in
replace_in-AreClean claims claims' property old new none j k h e = absurd (ground arith)
replace_in-AreClean claims claims' property old new (some array) j k h e =
    replace_at-AreClean claims claims' property array new
      (get_claim_index (map trim_claim array) (get_claim_value old)) j k h e

edited-AreClean :
    (claims claims' : Claims) (property : String) (old new : Option Claim)
    → MayJoin new (or_empty (memory_lookup claims property))
    → AreClean claims
    → edited_claims claims property old new ≡ ok claims'
    → AreClean claims'
unfolding edited_claims
edited-AreClean claims claims' property none none j h e = absurd (ground arith)
edited-AreClean claims claims' property none (some n) j h e =
    let array = or_empty (memory_lookup claims property) in
    let same : memory_put claims property (array ++ n ∷ []) ≡ claims' = ground arith in
    subst AreClean same (
      put-AreClean claims property (array ++ n ∷ [])
        (IsClean-push array n j
          (or_empty-IsClean claims property (memory_lookup claims property) h refl))
        h)
edited-AreClean claims claims' property (some old) new j h e =
    replace_in-AreClean claims claims' property old new (memory_lookup claims property) j
      (or_empty-IsClean claims property (memory_lookup claims property) h refl) h e

abbrev pub IsTidy : EntityDoc → Type 0
IsTidy (entity e) = AreClean e.claims
IsTidy (removed_placeholder e) = AreClean e.claims
IsTidy (redirection _) = Unit

-- The new claim as it is stored
abbrev pub stored_claim : Option Claim → Option Claim
stored_claim new = map_claim (λ c. minimize_claim_object (trim_claim c)) new

module _ (inferences : String → List (String × Convertor)) where
  pub update_inv :
      (doc doc' : EntityDoc) (property : String) (old new : Option Claim) (defined : List String)
      → update_entity_doc_claim inferences doc property old new defined ≡ ok doc'
      → (e : InvEntity) × (claims : Claims) × (doc ≡ entity e)
        × (already (or_empty (memory_lookup e.claims property)) (map_claim trim_claim new) ≡ false)
        × (edited_claims e.claims property (map_claim trim_claim old) (stored_claim new)
            ≡ ok claims)
        × (doc'
            ≡ entity (record e {
              claims =
                  update_inferred_properties
                    (inferences property)
                    defined
                    (map_claim trim_claim old)
                    (stored_claim new)
                    claims;
            }))
  unfolding update_entity_doc_claim assert_editable_entity
  update_inv doc doc' property old new defined h = ground arith

  pub joins :
      (new : Option Claim) (cs : List Claim)
      → already cs (map_claim trim_claim new) ≡ false
      → MayJoin (stored_claim new) cs
  joins none cs h = tt
  joins (some c) cs h = (rw (minimized-value (trim_claim c)) h, minimized-trimmed c)

  pub no_inferences :
      (inferred : List (String × Convertor)) (defined : List String) (old new : Option Claim)
      (claims : Claims)
      → inferred ≡ []
      → update_inferred_properties inferred defined old new claims ≡ claims
  unfolding update_inferred_properties
  no_inferences [] defined old new claims e = refl
  no_inferences (_ ∷ _) defined old new claims e = absurd (ground arith)

  -- An accepted edit of a claim, of a property from which nothing is inferred, keeps the claims of
  -- each property trimmed and without two of the same value.
  pub update_entity_doc_claim-IsTidy :
      (doc doc' : EntityDoc) (property : String) (old new : Option Claim) (defined : List String)
      → inferences property ≡ []
      → update_entity_doc_claim inferences doc property old new defined ≡ ok doc'
      → IsTidy doc
      → IsTidy doc'
  update_entity_doc_claim-IsTidy doc doc' property old new defined plainly h tidy =
      let (e, claims, is_e, fresh, edited, is_e') =
        update_inv doc doc' property old new defined h in
      let same =
        no_inferences (inferences property) defined (map_claim trim_claim old) (stored_claim new)
          claims plainly in
      subst IsTidy (sym is_e') (
        subst AreClean (sym same) (
          edited-AreClean e.claims claims property (map_claim trim_claim old) (stored_claim new)
            (joins new (or_empty (memory_lookup e.claims property)) fresh) (subst IsTidy is_e tidy)
            edited))
