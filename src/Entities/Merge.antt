-- ===== src/Entities/Merge.antt =====
-- The merge of two entities (mergeEntitiesDocs). The constraints on the properties' values
-- (server/controllers/entities/lib/properties/properties_values_constraints.ts) are a parameter: what
-- is said here holds for any.
use inventaire.Base.{
  String, Bool, Option, none, some, List, [], ◌∷◌, ◌++◌, string_eq, ◌||◌, includes, if◌then◌else◌,
  Outcome, ok, ◌>>=◌, any,
}
use inventaire.Couch.{memory_lookup, memory_put}
use inventaire.Entities.{
  Claim, plain, object, Claims, Labels, InvEntity, EntityDoc, entity, removed_placeholder,
  redirection, get_claim_value, has_value, value_eq, prevent_redirection_edit, is_non_empty,
}
use inventaire.Entities.Edits.{or_empty}

pub record Constraints : Type 0 where
  pub unique_value : Bool
  pub has_placeholders : Bool

abbrev pub or_else : {A : Type 0} → Option A → A → A
or_else none a = a
or_else (some a) _ = a

-- `toEntityDoc.labels[lang] ??= value`, for each label of the other entity
unfoldable pub merge_labels : Labels → Labels → Labels
merge_labels [] to = to
merge_labels ((lang, value) ∷ from) to =
    merge_labels from (memory_put to lang (or_else (memory_lookup to lang) value))

unfoldable pub merge_references : List String → List String → List String
merge_references [] to = to
merge_references (ref ∷ from) to =
    merge_references from (if includes to ref then to else to ++ ref ∷ [])

unfoldable pub merge_claim_references : Claim → Claim → Claim
merge_claim_references (object _ from) (object v to) = object v (merge_references from to)
merge_claim_references (object _ from) (plain v) = object v from
merge_claim_references (plain _) to = to

-- The first claim of the same value, with the references added
unfoldable pub merge_into : Claim → List Claim → List Claim
merge_into claim [] = []
merge_into claim (c ∷ cs) =
    let rest = merge_into claim cs in
    if has_value (get_claim_value claim) c then merge_claim_references claim c ∷ cs else c ∷ rest

unfoldable pub merge_claim : Constraints → Claim → List Claim → List Claim
merge_claim constraints claim to =
    if any (has_value (get_claim_value claim)) to
    then merge_into claim to
    else if is_non_empty to
    then if constraints.unique_value || constraints.has_placeholders then to else to ++ claim ∷ []
    else to ++ claim ∷ []

unfoldable pub merge_property_claims : Constraints → List Claim → List Claim → List Claim
merge_property_claims constraints [] to = to
merge_property_claims constraints (claim ∷ from) to =
    merge_property_claims constraints from (merge_claim constraints claim to)

module _ (properties : String → Constraints) where
  unfoldable pub merge_claims : Claims → Claims → Claims
  merge_claims [] to = to
  merge_claims ((property, claims) ∷ from) to = merge_claims from (
      memory_put to property
        (merge_property_claims (properties property) claims (or_empty (memory_lookup to property))))

  abbrev pub merged : InvEntity → InvEntity → InvEntity
  merged from to = record to {
    labels = merge_labels from.labels to.labels;
    claims = merge_claims from.claims to.claims;
  }

  -- The surviving document keeps its type.
  abbrev pub with_entity : EntityDoc → InvEntity → EntityDoc
  with_entity (entity _) e = entity e
  with_entity (removed_placeholder _) e = removed_placeholder e
  with_entity (redirection r) e = redirection r

  unfoldable pub merge_entities_docs : EntityDoc → EntityDoc → Outcome EntityDoc
  merge_entities_docs from to = do
    f ← prevent_redirection_edit from
    t ← prevent_redirection_edit to
    ok (with_entity to (merged f t))
