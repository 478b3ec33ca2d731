-- ===== src/Properties/Claims.antt =====
-- The validation of a claim before it is stored
-- (server/controllers/entities/lib/validate_and_format_claim_value.ts).
use inventaire.Base.{
  String, Bool, true, false, not, ◌||◌, Option, none, some, List, ◌==◌, string_eq, all, includes,
  if◌then◌else◌, Outcome, ok, err, http, failed, require, ◌>>=◌, ◌>>◌,
}
use Prim.Native.String.{◌++◌ as join}
use inventaire.Couch.{memory_lookup}
use inventaire.Entities.{ClaimValue, text, number, Claim, get_claim_value, set_claim_value}
use inventaire.Properties.{PropertyValueConstraints}
use inventaire.Properties.Table.{properties_values_constraints}
use inventaire.Properties.Splits.{trim}
use inventaire.Properties.Values.{Platform, format_value}
use inventaire.Properties.Checks.{checked_value, expected_type}

-- What the validation reads: the ids of the entities that have a claim, and the type of the entity at a
-- uri, if there is one and it has one. `normalize` is that of texts.
pub record Lookups : Type 0 where
  pub ids_by_claim : String → ClaimValue → List String
  pub type_by_uri : ClaimValue → Option (Option String)
  pub normalize : String → String

-- ValidateAndFormatClaimValueParams
pub record ClaimRequest : Type 0 where
  pub type : Option String
  pub property : String
  pub old_claim : Option Claim
  pub new_claim : Option Claim
  pub let_empty_value_pass : Bool
  pub user_access_levels : List String
  pub id : String

unfoldable pub require_level : Option String → List String → String → Outcome (Unit {0})
require_level none levels action = ok tt
require_level (some level) levels action =
    require (includes levels level)
      (join (join (join action " property requires ") level) "'s rights") 403

abbrev pub is_claim : Option Claim → Bool
is_claim none = false
is_claim (some _) = true

abbrev pub is_only : String → List String → Bool
is_only id ids = all (λ other. other == id) ids

abbrev pub type_is_in : List String → Option (Option String) → Bool
type_is_in types (some (some type)) = includes types type
type_is_in types _ = false

module _ (lookups : Lookups) where
  open lookups use {ids_by_claim, type_by_uri, normalize}

  -- `newVal.trim().normalize()`, of a text
  unfoldable pub normalized : ClaimValue → ClaimValue
  unfolding trim
  normalized (text s) = text (normalize (trim s))
  normalized (number n) = number n

  -- verifyClaimConcurrency
  unfoldable pub verify_claim_concurrency : Bool → String → ClaimValue → String → Outcome (Unit {0})
  verify_claim_concurrency concurrency property v id =
      require (not concurrency || is_only id (ids_by_claim property v))
        "invalid claim value: this property value is already used" 400

  -- verifyClaimEntityType; the message leaves out the type that is found.
  unfoldable pub verify_claim_entity_type : Option (List String) → ClaimValue → Outcome (Unit {0})
  verify_claim_entity_type none v = ok tt
  verify_claim_entity_type (some types) v = elim (type_by_uri v) [
    | none ↦ err (http "invalid claim value: entity not found" 400)
    | some _ ↦
        require (type_is_in types (type_by_uri v)) "invalid claim value: invalid claim entity type"
          400
  ]

  module _ (platform : Platform) where
    -- From the rights on, for a new claim that has a value
    unfoldable pub validate_and_format_new :
        PropertyValueConstraints → ClaimRequest → Claim → Outcome Claim
    validate_and_format_new c req claim = do
      let v = normalized (get_claim_value claim)
      _ ← checked_value platform c req.type v
      w ← format_value platform c.format v
      verify_claim_concurrency c.concurrency req.property w req.id
      verify_claim_entity_type c.entity_value_types w
      ok (set_claim_value claim w)

    unfoldable pub validate_new : PropertyValueConstraints → ClaimRequest → Outcome (Option Claim)
    validate_new c req = elim req.new_claim [
      | some claim ↦ validate_and_format_new c req claim >>= λ formatted. ok (some formatted)
      | none ↦
          if req.let_empty_value_pass
          then ok none
          else err (
              http
                (join (join "invalid value type: expected " (expected_type c.primitive_type))
                  ", got undefined")
                400)
    ]

    unfoldable pub validate_with : PropertyValueConstraints → ClaimRequest → Outcome (Option Claim)
    validate_with c req = do
      require_level c.edit_access_level req.user_access_levels "editing"
      require_level (if is_claim req.old_claim then c.update_access_level else none)
          req.user_access_levels "updating"
      validate_new c req

    -- validateAndFormatClaimValue
    unfoldable pub validate_and_format_claim_value : ClaimRequest → Outcome (Option Claim)
    validate_and_format_claim_value req =
        elim (memory_lookup properties_values_constraints req.property) [
          | none ↦ err failed
          | some c ↦ validate_with c req
        ]
