-- ===== src/Entities/Survivors.antt =====
-- The labels and the values of the document that mergeEntitiesDocs (server/models/entity.ts) returns.
use inventaire.Base.{
  String, true, false, [], ◌∷◌, string_eq, ◌||◌, any, ok, ◌≡◌, ◌∙◌, sym, ap, arith,
}
use inventaire.Couch.{memory_lookup}
use inventaire.Entities.{
  ClaimValue, Claims, EntityDoc, entity, removed_placeholder, redirection, prevent_redirection_edit,
}
use inventaire.Entities.Edits.{or_empty}
use inventaire.Entities.Merge.{Constraints, merge_labels, merge_claims, merge_entities_docs}
use inventaire.Entities.Labels.{label_of, labels_of, first_of, lookup-merge_labels}
use inventaire.Entities.Values.{claims_of, holds}
use inventaire.Entities.Merged.{
  is_limited, held, claimed, entry_merged, held-merge_claims, kept-merge_property_claims,
  nothing_new-merge_property_claims,
}

module _ (properties : String → Constraints) where
  kept-merge_claims :
      (from to : Claims) (q : String) (v : ClaimValue)
      → held to q v ≡ true
      → held (merge_claims properties from to) q v ≡ true
  unfolding merge_claims
  kept-merge_claims [] to q v h = h
  kept-merge_claims ((p, cs) ∷ from) to q v h =
      let k = kept-merge_property_claims (properties q) v cs (or_empty (memory_lookup to q)) h in
      kept-merge_claims from _ q v (entry_merged properties p q cs to v ∙ ground arith)

  nothing_new-merge_claims :
      (from to : Claims) (q : String) (v : ClaimValue)
      → held (merge_claims properties from to) q v ≡ true
      → (held to q v || claimed from q v) ≡ true
  unfolding merge_claims claimed any
  nothing_new-merge_claims [] to q v h = ground arith
  nothing_new-merge_claims ((p, cs) ∷ from) to q v h = ground (
    arith,
    nothing_new-merge_claims from _ q v h,
    entry_merged properties p q cs to v,
    nothing_new-merge_property_claims (properties q) v cs (or_empty (memory_lookup to q)),
  )

  merge_inv :
      (from to doc : EntityDoc)
      → merge_entities_docs properties from to ≡ ok doc
      → (labels_of doc ≡ merge_labels (labels_of from) (labels_of to))
        × (claims_of doc ≡ merge_claims properties (claims_of from) (claims_of to))
  unfolding merge_entities_docs prevent_redirection_edit
  merge_inv (redirection r) to doc h = absurd (ground arith)
  merge_inv (entity f) (entity t) doc h = (ground arith, ground arith)
  merge_inv (entity f) (removed_placeholder t) doc h = (ground arith, ground arith)
  merge_inv (entity f) (redirection t) doc h = absurd (ground arith)
  merge_inv (removed_placeholder f) (entity t) doc h = (ground arith, ground arith)
  merge_inv (removed_placeholder f) (removed_placeholder t) doc h = (ground arith, ground arith)
  merge_inv (removed_placeholder f) (redirection t) doc h = absurd (ground arith)

  -- A merge that is accepted leaves, for each language, the label of the surviving entity, and that of
  -- the other where it had none.
  label_of-merge_entities_docs :
      (from to doc : EntityDoc) (lang : String)
      → merge_entities_docs properties from to ≡ ok doc
      → label_of doc lang ≡ first_of (label_of to lang) (label_of from lang)
  label_of-merge_entities_docs from to doc lang h =
      ap (λ x. memory_lookup x lang) (merge_inv from to doc h).0
      ∙ lookup-merge_labels (labels_of from) (labels_of to) lang

  -- A merge that is accepted keeps each value of the surviving entity and adds none that neither
  -- entity had; it adds each value of the other entity for a property that may hold several values
  -- and no placeholders.
  pub holds-merge_entities_docs :
      (from to doc : EntityDoc) (property : String) (v : ClaimValue)
      → merge_entities_docs properties from to ≡ ok doc
      → (holds to property v ≡ true → holds doc property v ≡ true)
        × (holds doc property v ≡ true
            → (holds to property v || claimed (claims_of from) property v) ≡ true)
        × (is_limited (properties property) ≡ false
            → holds doc property v ≡ (holds to property v || claimed (claims_of from) property v))
  holds-merge_entities_docs from to doc property v h =
      let same = (merge_inv from to doc h).1 in
      let now = ap (λ x. held x property v) same in
      (
        λ k. now ∙ kept-merge_claims (claims_of from) (claims_of to) property v k,
        λ k. nothing_new-merge_claims (claims_of from) (claims_of to) property v (sym now ∙ k),
        λ free. now ∙ held-merge_claims properties (claims_of from) (claims_of to) property v free,
      )
