-- ===== src/Properties/Updated.antt =====
-- What an accepted update of a claim does to the entity
-- (server/controllers/entities/lib/update_inv_claim.ts).
use inventaire.Base.{
  String, not, ◌&&◌, ◌||◌, Option, none, some, List, [], if◌then◌else◌, ok, ◌≡◌, ◌⊎◌, ◌∙◌, refl, ap,
  arith, Option-cases, bind_inv, seq_inv, inl, inr,
}
use inventaire.Couch.{memory_lookup}
use inventaire.Entities.{
  ClaimValue, Claim, plain, Claims, trim_claim, InvEntity, EntityDoc, entity, removed_placeholder,
  redirection,
}
use inventaire.Entities.Edits.{Convertor, map_claim, update_entity_doc_claim}
use inventaire.Entities.Edited.{IsTidy}
use inventaire.Entities.Places.{is_of}
use inventaire.Entities.Values.{holds, holds-update_entity_doc_claim}
use inventaire.Properties.{PropertyValueConstraints}
use inventaire.Properties.Table.{properties_values_constraints}
use inventaire.Properties.Values.{Platform}
use inventaire.Properties.Checks.{validate_property, validate_claim_property}
use inventaire.Properties.Claims.{
  Lookups, ClaimRequest, validate_and_format_claim_value, validate_with, validate_new,
  validate_and_format_new, require_level, is_claim,
}
use inventaire.Properties.Updating.{
  plain_claim, first_claim_value, ClaimUpdate, validate_typed, validated_type, claim_request,
  update_claim, update_inv_claim, get_inv_entity_type,
}
use inventaire.Properties.Admitted.{IsAdmitted, validate_and_format_claim_value-IsAdmitted}

-- The entity is a local layer of an entity of the type, or may have the property by its type.
abbrev pub MayHave : Lookups → Claims → Option String → String → Type 0
MayHave lookups claims type property =
    ((uri : ClaimValue) × (first_claim_value (memory_lookup claims "invp:P1") ≡ some uri)
      × (lookups.type_by_uri uri ≡ some type))
    ⊎ ((t : String) × (type ≡ some t) × (validate_claim_property t property ≡ ok tt))

typed_inv :
    (found type : Option String) (property : String)
    → validate_typed found property ≡ ok type
    → (t : String) × (type ≡ some t) × (validate_claim_property t property ≡ ok tt)
unfolding validate_typed
typed_inv none type property h = absurd (ground arith)
typed_inv (some t) type property h =
    let (u, e, h1) = bind_inv (validate_claim_property t property) (λ _. ok (some t)) type h in
    (t, ground arith, e)

MayHave-validated_type :
    (lookups : Lookups) (type_of : String → Option String) (claims : Claims) (type : Option String)
    (property : String)
    → validated_type lookups type_of claims property ≡ ok type
    → MayHave lookups claims type property
unfolding validated_type
MayHave-validated_type lookups type_of claims type property h =
    elim (Option-cases (first_claim_value (memory_lookup claims "invp:P1"))) [
      | inr (uri, e) ↦ elim (Option-cases (lookups.type_by_uri uri)) [
        | inl k ↦ absurd (ground arith)
        | inr (found, k) ↦ inl (uri, e, ground arith)
      ]
      | inl e ↦
          let (found, k, h1) =
            bind_inv (get_inv_entity_type type_of (memory_lookup claims "wdt:P31"))
              (λ found. validate_typed found property) type (ground arith) in
          inr (typed_inv found type property h1)
    ]

-- A request with a new value does not end without a claim.
some-validate_new :
    (lookups : Lookups) (platform : Platform) (c : PropertyValueConstraints) (req : ClaimRequest)
    (claim : Claim)
    → req.new_claim ≡ some claim
    → ¬ (validate_new lookups platform c req ≡ ok none)
unfolding validate_new validate_and_format_new
some-validate_new lookups platform c req claim e h =
    let (formatted, f, h1) =
      bind_inv (validate_and_format_new lookups platform c req claim) _ none (rw e at h) in
    absurd (ground arith)

some-validate_and_format :
    (lookups : Lookups) (platform : Platform) (req : ClaimRequest) (claim : Claim)
    → req.new_claim ≡ some claim
    → ¬ (validate_and_format_claim_value lookups platform req ≡ ok none)
unfolding validate_and_format_claim_value validate_with
some-validate_and_format lookups platform req claim e h =
    elim (Option-cases (memory_lookup properties_values_constraints req.property)) [
      | inl k ↦ absurd (ground arith)
      | inr (c, k) ↦
          let h0 : validate_with lookups platform c req ≡ ok none = ground arith in
          let (_, h1) =
            seq_inv (require_level c.edit_access_level req.user_access_levels "editing") _ none
              h0 in
          let (_, h2) =
            seq_inv
              (require_level (if is_claim req.old_claim then c.update_access_level else none)
                req.user_access_levels "updating")
              _ none h1 in
          some-validate_new lookups platform c req claim e h2
    ]

missing-new :
    (lookups : Lookups) (platform : Platform) (req : ClaimRequest) (new : Option ClaimValue)
    → req.new_claim ≡ plain_claim new
    → validate_and_format_claim_value lookups platform req ≡ ok none
    → new ≡ none
missing-new lookups platform req none e h = refl
missing-new lookups platform req (some v) e h =
    absurd (some-validate_and_format lookups platform req (plain v) e h)

module _ (lookups : Lookups) (platform : Platform) where
  -- The new claim, if there is one, is one that the validation accepts.
  abbrev pub IsAccepted : InvEntity → Option String → ClaimUpdate → Option Claim → Type 0
  IsAccepted e type update none = update.new_value ≡ none
  IsAccepted e type update (some claim) =
      (c : PropertyValueConstraints) × (memory_lookup properties_values_constraints update.property
        ≡ some c)
      × IsAdmitted lookups platform c (claim_request e type update) claim

  -- No new claim comes of a request that has one.
  IsAccepted-formatted :
      (e : InvEntity) (type : Option String) (update : ClaimUpdate) (formatted : Option Claim)
      → validate_and_format_claim_value lookups platform (claim_request e type update)
        ≡ ok formatted
      → IsAccepted e type update formatted
  IsAccepted-formatted e type update (some claim) h =
      validate_and_format_claim_value-IsAdmitted lookups platform (claim_request e type update)
        claim h
  IsAccepted-formatted e type update none h =
      missing-new lookups platform (claim_request e type update) update.new_value refl h

module _ (inferences : String → List (String × Convertor)) (lookups : Lookups)
    (platform : Platform) where
  update_claim_inv :
      (e : InvEntity) (type : Option String) (update : ClaimUpdate) (doc' : EntityDoc)
      → update_claim inferences lookups platform e type update ≡ ok doc'
      → (formatted : Option Claim) × IsAccepted lookups platform e type update formatted
        × (update_entity_doc_claim inferences
              (entity e)
              update.property
              (plain_claim update.old_value)
              formatted
              []
            ≡ ok doc')
  unfolding update_claim
  update_claim_inv e type update doc' h =
      let (_, h1) = seq_inv (validate_property update.property) _ doc' h in
      let (formatted, k, h2) =
        bind_inv (validate_and_format_claim_value lookups platform (claim_request e type update)) _
          doc' h1 in
      (formatted, IsAccepted-formatted lookups platform e type update formatted k, h2)

  module _ (type_of : String → Option String) where
    update_inv_claim_inv :
        (doc : EntityDoc) (update : ClaimUpdate) (doc' : EntityDoc)
        → update_inv_claim inferences lookups platform type_of (some doc) update ≡ ok doc'
        → (e : InvEntity) × (doc ≡ entity e)
          × (type : Option String) × MayHave lookups e.claims type update.property
          × (update_claim inferences lookups platform e type update ≡ ok doc')
    unfolding update_inv_claim
    update_inv_claim_inv (redirection _) update doc' h = absurd (ground arith)
    update_inv_claim_inv (removed_placeholder _) update doc' h = absurd (ground arith)
    update_inv_claim_inv (entity e) update doc' h =
        let (type, k, h1) =
          bind_inv (validated_type lookups type_of e.claims update.property) _ doc' h in
        (e, refl, type, MayHave-validated_type lookups type_of e.claims type update.property k, h1)

    -- Where nothing is inferred from the property, and the entity's properties hold trimmed claims and each
    -- value once, an accepted update of a claim finds an entity whose type may have the property, or a
    -- local layer; the new claim, if there is one, is one that the validation accepts; the values of the
    -- property after the update are the new claim's, and those before it but the old value.
    pub update_inv_claim-Updated :
        (doc doc' : EntityDoc) (update : ClaimUpdate) (v : ClaimValue)
        → inferences update.property ≡ []
        → IsTidy doc
        → update_inv_claim inferences lookups platform type_of (some doc) update ≡ ok doc'
        → (e : InvEntity) × (doc ≡ entity e)
          × (type : Option String) × MayHave lookups e.claims type update.property
          × (formatted : Option Claim) × IsAccepted lookups platform e type update formatted
          × (holds doc' update.property v ≡ (
              is_of (map_claim trim_claim formatted) v
              || (not (is_of (map_claim trim_claim (plain_claim update.old_value)) v)
                  && holds doc update.property v)))
    update_inv_claim-Updated doc doc' update v plainly tidy h =
        let (e, is_e, type, may, updated) = update_inv_claim_inv doc update doc' h in
        let (formatted, accepted, edited) = update_claim_inv e type update doc' updated in
        (
          e,
          is_e,
          type,
          may,
          formatted,
          accepted,
          holds-update_entity_doc_claim inferences doc doc' update.property
              (plain_claim update.old_value) formatted [] v plainly tidy
              (ap
                  (λ d.
                    update_entity_doc_claim inferences d update.property
                      (plain_claim update.old_value) formatted [])
                  is_e
                ∙ edited),
        )
