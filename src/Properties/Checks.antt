-- ===== src/Properties/Checks.antt =====
-- The validation of a claim's property and value
-- (server/controllers/entities/lib/properties/validations.ts, validate_claim_property.ts and
-- validate_claim_sync.ts).
use inventaire.Base.{
  String, Bool, true, false, ◌&&◌, ◌||◌, Option, none, some, List, string_eq, includes,
  if◌then◌else◌, Outcome, ok, err, http, failed, require, ◌>>=◌, ◌>>◌, map, ◌≡◌, ◌∙◌, ap, subst,
  arith, Bool-cases, bind_inv, inl, inr,
}
use Prim.Native.String.{◌++◌ as join}
use inventaire.Couch.{memory_lookup}
use inventaire.Validation.{is_couch_uuid}
use inventaire.Entities.{ClaimValue, text, number}
use inventaire.Properties.{
  PropertyValueConstraints, Datatype, entity_uri, PrimitiveType, string,
  all_locally_edited_entities_types,
}
use inventaire.Properties.Patterns.{Pattern, seq, alt, star, literal, whole}
use inventaire.Properties.Ids.{digit, nonzero}
use inventaire.Properties.Table.{properties_values_constraints}
use inventaire.Properties.Subjects.{subject_types, properties_of_type}
use inventaire.Properties.Values.{Platform, format_value, validates, passes_pattern}

-- PropertyUri
abbrev pub property_uri : Pattern
property_uri =
    whole
      (seq (alt (literal "wdt") (literal "invp")) (seq (literal ":P") (seq nonzero (star digit))))

abbrev pub names : {A : Type 0} → List (String × A) → List String
names entries = map (λ entry. entry.0) entries

-- validateProperty; the message on a property that is not allowed leaves out the list.
unfoldable pub validate_property : String → Outcome (Unit {0})
unfolding passes_pattern
validate_property property = do
  require (passes_pattern property_uri property) "invalid property" 400
  require (includes (names properties_values_constraints) property) "property isn't allowlisted" 400

-- The list of a type that has none can not be read.
unfoldable pub validate_type_property : String → String → Outcome (Unit {0})
validate_type_property type property =
    if includes all_locally_edited_entities_types type
    then require (includes (properties_of_type type subject_types) property)
        (join (join type "s can't have a property ") property) 400
    else err failed

-- validateClaimProperty
unfoldable pub validate_claim_property : String → String → Outcome (Unit {0})
validate_claim_property type property = do
  validate_property property
  validate_type_property type property

-- validateValueType: whether a value is of the primitive type
unfoldable pub has_primitive_type : PrimitiveType → ClaimValue → Bool
has_primitive_type string (text _) = true
has_primitive_type string (number _) = false
has_primitive_type PrimitiveType.number (text _) = false
has_primitive_type PrimitiveType.number (number _) = true

-- The value types of the message on a wrong one
abbrev pub expected_type : PrimitiveType → String
expected_type string = "string"
expected_type PrimitiveType.number = "number"

abbrev actual_type : ClaimValue → String
actual_type (text _) = "string"
actual_type (number _) = "number"

abbrev pub is_entity_datatype : Datatype → Bool
is_entity_datatype entity_uri = true
is_entity_datatype _ = false

-- The type that the validation is given
abbrev pub type_for : Bool → Option String → Option String
type_for type_specific type = if type_specific then type else none

module _ (platform : Platform) where
  open platform use {is_item_id}

  -- isEntityId
  abbrev is_entity_id : ClaimValue → Bool
  is_entity_id (text s) = is_item_id s || is_couch_uuid s
  is_entity_id (number _) = false

  unfoldable pub invalid_value :
      PropertyValueConstraints → Option String → ClaimValue → Outcome ClaimValue
  invalid_value constraints type v =
      let untyped : Outcome ClaimValue =
        if is_entity_datatype constraints.datatype && is_entity_id v
        then err (http "invalid property value: missing entity uri prefix" 400)
        else err (http "invalid property value" 400) in
      elim type [
        | none ↦ untyped
        | some entity_type ↦
            if constraints.type_specific_validation
            then err (
                http (join (join "invalid property value for entity type \"" entity_type) "\"") 400)
            else untyped
      ]

  unfoldable pub checked_value :
      PropertyValueConstraints → Option String → ClaimValue → Outcome ClaimValue
  checked_value constraints type v = do
    require (has_primitive_type constraints.primitive_type v)
        (join (join "invalid value type: expected " (expected_type constraints.primitive_type))
          (join ", got " (actual_type v)))
        400
    w ← format_value platform constraints.format v
    valid ←
        validates platform constraints.validate (type_for constraints.type_specific_validation type)
          w
    if valid then ok w else invalid_value constraints type w

  -- validateAndFormatSnakValueSync
  unfoldable pub validate_and_format_snak_value :
      String → ClaimValue → Option String → Outcome ClaimValue
  validate_and_format_snak_value property v type =
      elim (memory_lookup properties_values_constraints property) [
        | none ↦ err failed
        | some constraints ↦ checked_value constraints type v
      ]

  pub validate_and_format_at :
      (property : String) (v : ClaimValue) (type : Option String) (c : PropertyValueConstraints)
      → memory_lookup properties_values_constraints property ≡ some c
      → validate_and_format_snak_value property v type ≡ checked_value c type v
  unfolding validate_and_format_snak_value
  validate_and_format_at property v type c e = ground arith

  invalid-ne-ok :
      (c : PropertyValueConstraints) (type : Option String) (v w : ClaimValue)
      → ¬ (invalid_value c type v ≡ ok w)
  unfolding invalid_value
  invalid-ne-ok c none v w h = ground arith
  invalid-ne-ok c (some t) v w h = ground arith

  -- A value that is accepted is the formatted one, and the validation admits it.
  pub checked_inv :
      (c : PropertyValueConstraints) (type : Option String) (v w : ClaimValue)
      → checked_value c type v ≡ ok w
      → (has_primitive_type c.primitive_type v ≡ true)
        × (format_value platform c.format v ≡ ok w)
        × (validates platform c.validate (type_for c.type_specific_validation type) w ≡ ok true)
  unfolding checked_value
  checked_inv c type v w h =
      let given = type_for c.type_specific_validation type in
      elim (Bool-cases (has_primitive_type c.primitive_type v)) [
        | inl p ↦
            let (u, f, more) = bind_inv (format_value platform c.format v) _ w (rw p at h) in
            let (valid, k, last) = bind_inv (validates platform c.validate given u) _ w more in
            elim (Bool-cases valid) [
              | inl e ↦
                  let same : u ≡ w = ground arith in
                  subst
                    (λ (x : ClaimValue).
                      (has_primitive_type c.primitive_type v ≡ true)
                      × (format_value platform c.format v ≡ ok x)
                      × (validates platform c.validate given x ≡ ok true))
                    same (p, f, k ∙ ap ok e)
              | inr e ↦ absurd (invalid-ne-ok c type u w (rw e at last))
            ]
        | inr p ↦ absurd (ground arith)
      ]
