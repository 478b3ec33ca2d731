-- ===== src/Entities/Values.antt =====
-- The values of a property after updateEntityDocClaim (server/models/entity.ts).
use inventaire.Base.{
  ℕ, String, Bool, Option, none, some, List, [], ◌∷◌, ◌++◌, ◌==◌, string_eq, ◌&&◌, ◌||◌, not, any,
  ok, map, ◌≡◌, ◌∙◌, refl, sym, ap, subst, arith, beq_refl,
}
use inventaire.Couch.{memory_lookup, memory_put, memory_lookup-put}
use inventaire.Entities.{
  ClaimValue, value_eq, Claim, Claims, EntityDoc, entity, removed_placeholder, redirection,
  get_claim_value, has_value, get_claim_index, trim_claim,
}
use inventaire.Entities.Objects.{lookup-omit}
use inventaire.Entities.Edits.{
  or_empty, set_possibly_empty_property_array, assign, splice, replace_at, replace_in,
  edited_claims, map_claim, Convertor, update_entity_doc_claim,
}
use inventaire.Entities.Claims.{IsClean, map-trim_claim, minimized-value}
use inventaire.Entities.Edited.{
  AreClean, IsTidy, stored_claim, update_inv, no_inferences, or_empty-IsClean,
}
use inventaire.Entities.Places.{is_of, any-append_one, any-assign_at, any-splice_at}

-- The claims of the property after an edit, by the old and the new claim.
abbrev Becomes : Claims → Claims → String → Option Claim → Option Claim → ClaimValue → Type 0
Becomes claims claims' property old new v =
    any (has_value v) (or_empty (memory_lookup claims' property)) ≡ (
      is_of new v
      || (not (is_of old v) && any (has_value v) (or_empty (memory_lookup claims property))))

lookup-put_self :
    (claims : Claims) (property : String) (cs : List Claim)
    → memory_lookup (memory_put claims property cs) property ≡ some cs
lookup-put_self claims property cs =
    rw (memory_lookup-put claims property property cs, beq_refl property) refl

lookup-set_self :
    (claims : Claims) (property : String) (cs : List Claim)
    → or_empty (memory_lookup (set_possibly_empty_property_array claims property cs) property) ≡ cs
unfolding set_possibly_empty_property_array
lookup-set_self claims property [] =
    rw (lookup-omit claims property property, beq_refl property) refl
lookup-set_self claims property (c ∷ cs) = ap or_empty (lookup-put_self claims property (c ∷ cs))

replace_at-Becomes :
    (claims claims' : Claims) (property : String) (array : List Claim) (old : Claim)
    (new : Option Claim) (i : Option ℕ) (v : ClaimValue)
    → IsClean array
    → get_claim_index (map trim_claim array) (get_claim_value old) ≡ i
    → replace_at claims property array new i ≡ ok claims'
    → any (has_value v) (or_empty (memory_lookup claims' property))
      ≡ (is_of new v || (not (has_value v old) && any (has_value v) array))
unfolding replace_at
replace_at-Becomes claims claims' property array old new none v k e h = absurd (ground arith)
replace_at-Becomes claims claims' property array old (some n) (some i) v k e h =
    let same : memory_put claims property (assign array i n) ≡ claims' = ground arith in
    let index : get_claim_index array (get_claim_value old) ≡ some i =
      ap (λ x. get_claim_index x (get_claim_value old)) (sym (map-trim_claim array k)) ∙ e in
    ap (λ x. any (has_value v) (or_empty (memory_lookup x property))) (sym same)
    ∙ ap (λ x. any (has_value v) (or_empty x)) (lookup-put_self claims property (assign array i n))
    ∙ any-assign_at v (get_claim_value old) array i n k index
replace_at-Becomes claims claims' property array old none (some i) v k e h =
    let trimmed = map-trim_claim array k in
    let same : set_possibly_empty_property_array claims property (splice (map trim_claim array) i)
        ≡ claims' =
      ground arith in
    let index : get_claim_index array (get_claim_value old) ≡ some i =
      ap (λ x. get_claim_index x (get_claim_value old)) (sym trimmed) ∙ e in
    ap (λ x. any (has_value v) (or_empty (memory_lookup x property))) (sym same)
    ∙ ap (any (has_value v)) (lookup-set_self claims property (splice (map trim_claim array) i))
    ∙ ap (λ x. any (has_value v) (splice x i)) trimmed
    ∙ any-splice_at v (get_claim_value old) array i k index

replace_in-Becomes :
    (claims claims' : Claims) (property : String) (old : Claim) (new : Option Claim)
    (array : Option (List Claim)) (v : ClaimValue)
    → IsClean (or_empty array)
    → replace_in claims property old new array ≡ ok claims'
    → any (has_value v) (or_empty (memory_lookup claims' property))
      ≡ (is_of new v || (not (has_value v old) && any (has_value v) (or_empty array)))
unfolding replace_in
replace_in-Becomes claims claims' property old new none v k h = absurd (ground arith)
replace_in-Becomes claims claims' property old new (some array) v k h =
    replace_at-Becomes claims claims' property array old new
      (get_claim_index (map trim_claim array) (get_claim_value old)) v k refl h

edited-Becomes :
    (claims claims' : Claims) (property : String) (old new : Option Claim) (v : ClaimValue)
    → AreClean claims
    → edited_claims claims property old new ≡ ok claims'
    → Becomes claims claims' property old new v
unfolding edited_claims
edited-Becomes claims claims' property none none v k h = absurd (ground arith)
edited-Becomes claims claims' property none (some n) v k h =
    let array = or_empty (memory_lookup claims property) in
    let same : memory_put claims property (array ++ n ∷ []) ≡ claims' = ground arith in
    ap (λ x. any (has_value v) (or_empty (memory_lookup x property))) (sym same)
    ∙ ap (λ x. any (has_value v) (or_empty x)) (lookup-put_self claims property (array ++ n ∷ []))
    ∙ any-append_one v array n
edited-Becomes claims claims' property (some old) new v k h =
    replace_in-Becomes claims claims' property old new (memory_lookup claims property) v
      (or_empty-IsClean claims property (memory_lookup claims property) k refl) h

abbrev pub claims_of : EntityDoc → Claims
claims_of (entity e) = e.claims
claims_of (removed_placeholder e) = e.claims
claims_of (redirection _) = []

abbrev pub holds : EntityDoc → String → ClaimValue → Bool
holds doc property v = any (has_value v) (or_empty (memory_lookup (claims_of doc) property))

stored-is_of :
    (new : Option Claim) (v : ClaimValue)
    → is_of (stored_claim new) v ≡ is_of (map_claim trim_claim new) v
stored-is_of none v = refl
stored-is_of (some c) v = ap (λ x. x == v) (minimized-value (trim_claim c))

-- An accepted edit of a claim of an entity whose properties hold trimmed claims and each value once,
-- of a property from which nothing is inferred, leaves among the values of the property the new
-- claim's, and of those before it all but the old claim's; the values of both claims are trimmed.
pub holds-update_entity_doc_claim :
    (inferences : String → List (String × Convertor)) (doc doc' : EntityDoc) (property : String)
    (old new : Option Claim) (defined : List String) (v : ClaimValue)
    → inferences property ≡ []
    → IsTidy doc
    → update_entity_doc_claim inferences doc property old new defined ≡ ok doc'
    → holds doc' property v ≡ (
        is_of (map_claim trim_claim new) v
        || (not (is_of (map_claim trim_claim old) v) && holds doc property v))
holds-update_entity_doc_claim inferences doc doc' property old new defined v plainly tidy h =
    let (e, claims, is_e, fresh, edited, is_e') =
      update_inv inferences doc doc' property old new defined h in
    let same =
      no_inferences inferences (inferences property) defined (map_claim trim_claim old)
        (stored_claim new) claims plainly in
    let now : claims_of doc' ≡ claims = ap claims_of is_e' ∙ same in
    let was : claims_of doc ≡ e.claims = ap claims_of is_e in
    ap (λ x. any (has_value v) (or_empty (memory_lookup x property))) now
    ∙ edited-Becomes e.claims claims property (map_claim trim_claim old) (stored_claim new) v
        (subst IsTidy is_e tidy) edited
    ∙ (rw (stored-is_of new v, was) refl)
