-- ===== src/Properties/Updating.antt =====
-- The update of a claim of a local entity, as the server makes it up to the storage of the document
-- (server/controllers/entities/lib/update_inv_claim.ts, validate_and_format_claim.ts and
-- get_entity_type.ts). The values are those of `_updateInvClaim`, which have no references.
use inventaire.Base.{
  String, true, Option, none, some, List, [], ◌∷◌, Outcome, ok, err, http, failed, ◌>>=◌, ◌>>◌,
}
use inventaire.Couch.{memory_lookup}
use inventaire.Entities.{
  ClaimValue, text, number, Claim, plain, Claims, InvEntity, EntityDoc, entity, removed_placeholder,
  redirection, get_claim_value,
}
use inventaire.Entities.Edits.{Convertor, update_entity_doc_claim}
use inventaire.Properties.Values.{Platform}
use inventaire.Properties.Checks.{validate_property, validate_claim_property}
use inventaire.Properties.Claims.{Lookups, ClaimRequest, validate_and_format_claim_value}

abbrev pub plain_claim : Option ClaimValue → Option Claim
plain_claim none = none
plain_claim (some v) = some (plain v)

-- getFirstClaimValue, of a list of claims that may be missing
abbrev pub first_claim_value : Option (List Claim) → Option ClaimValue
first_claim_value none = none
first_claim_value (some []) = none
first_claim_value (some (c ∷ _)) = some (get_claim_value c)

-- getP31Type: the types are texts' ones, by the table typesByExtendedP31AliasesValues.
abbrev pub p31_type : (String → Option String) → ClaimValue → Option String
p31_type type_of (text uri) = type_of uri
p31_type type_of (number _) = none

-- getInvEntityType
unfoldable pub get_inv_entity_type :
    (String → Option String) → Option (List Claim) → Outcome (Option String)
get_inv_entity_type type_of none = ok none
get_inv_entity_type type_of (some (c ∷ [])) = ok (p31_type type_of (get_claim_value c))
get_inv_entity_type type_of (some _) = err (http "invalid inv entity wdt:P31 claim array" 400)

-- The user's levels, the property, and the old and the new value
pub record ClaimUpdate : Type 0 where
  pub user_access_levels : List String
  pub property : String
  pub old_value : Option ClaimValue
  pub new_value : Option ClaimValue

-- With assertStrings
unfoldable pub validate_typed : Option String → String → Outcome (Option String)
validate_typed none property = err (http "expected string, got undefined (undefined)" 500)
validate_typed (some type) property = validate_claim_property type property >>= λ _. ok (some type)

-- The type that the new value is validated for: of a local layer, that of the remote entity
unfoldable pub validated_type :
    Lookups → (String → Option String) → Claims → String → Outcome (Option String)
validated_type lookups type_of claims property =
    elim (first_claim_value (memory_lookup claims "invp:P1")) [
      | some uri ↦ elim (lookups.type_by_uri uri) [ none ↦ err failed | some type ↦ ok type ]
      | none ↦ get_inv_entity_type type_of (memory_lookup claims "wdt:P31") >>= λ type.
          validate_typed type property
    ]

abbrev pub claim_request : InvEntity → Option String → ClaimUpdate → ClaimRequest
claim_request e type update = record {
  type = type;
  property = update.property;
  old_claim = plain_claim update.old_value;
  new_claim = plain_claim update.new_value;
  let_empty_value_pass = true;
  user_access_levels = update.user_access_levels;
  id = e.id;
}

module _ (inferences : String → List (String × Convertor)) (lookups : Lookups)
    (platform : Platform) where
  -- updateClaim
  unfoldable pub update_claim : InvEntity → Option String → ClaimUpdate → Outcome EntityDoc
  update_claim e type update = do
    validate_property update.property
    formatted ← validate_and_format_claim_value lookups platform (claim_request e type update)
    update_entity_doc_claim inferences (entity e) update.property (plain_claim update.old_value)
        formatted []

  -- updateInvClaim, of the document that is found, with the table of the types of wdt:P31
  unfoldable pub update_inv_claim :
      (String → Option String) → Option EntityDoc → ClaimUpdate → Outcome EntityDoc
  update_inv_claim type_of none update = err (http "entity not found" 400)
  update_inv_claim type_of (some (redirection _)) update = err (http "this entity is obsolete" 400)
  update_inv_claim type_of (some (removed_placeholder _)) update =
      err (http "this entity is obsolete" 400)
  update_inv_claim type_of (some (entity e)) update = do
    type ← validated_type lookups type_of e.claims update.property
    update_claim e type update
