-- ===== src/Properties/UpdatingTests.antt =====
-- An update of the author of a work, and the theorem at this input.
use inventaire.Base.{
  ◌≡◌, refl, arith, subst, String, not, ◌&&◌, ◌||◌, Option, none, some, List, [], ◌∷◌, ◌==◌,
  string_eq, any, all, includes, if◌then◌else◌, ok, err, http, Bool-cases, inl, inr,
}
use inventaire.Texts.{is_space, is_space_code, trim_start, trim_end, super_trim, squeeze}
use inventaire.Items.Updates.{is_entity_uri, after, is_digit, is_word}
use inventaire.Entities.{
  text, Claim, plain, InvEntity, EntityDoc, entity, trim_claim, removed_placeholder,
  get_claim_index, minimize_claim_object, value_eq, assert_editable_entity,
}
use inventaire.Entities.Edits.{
  Convertor, map_claim, update_entity_doc_claim, edited_claims, replace_in, replace_at, assign,
  update_inferred_properties,
}
use inventaire.Entities.Claims.{IsClean}
use inventaire.Entities.Edited.{IsTidy, AreClean}
use inventaire.Entities.Places.{is_of}
use inventaire.Entities.Values.{holds}
use inventaire.Properties.Patterns.{
  test_pattern, test_branch, matches, derive, nullable, code_units,
}
use inventaire.Properties.Table.{properties_values_constraints}
use inventaire.Properties.Subjects.{properties_of_type, subject_types}
use inventaire.Properties.Splits.{trim}
use inventaire.Properties.Values.{
  passes_pattern, format_value, format_text, validates, validate_text,
}
use inventaire.Properties.Checks.{
  validate_property, validate_type_property, validate_claim_property, checked_value,
  has_primitive_type,
}
use inventaire.Properties.Claims.{
  validate_and_format_claim_value, validate_with, require_level, validate_new,
  validate_and_format_new, normalized, verify_claim_concurrency, verify_claim_entity_type,
}
use inventaire.Properties.Updating.{
  ClaimUpdate, plain_claim, get_inv_entity_type, validate_typed, validated_type, update_claim,
  update_inv_claim,
}
use inventaire.Properties.Updated.{MayHave, IsAccepted, update_inv_claim-Updated}
use inventaire.Properties.Tests.{node, lookups}

abbrev plainly : String → List (String × Convertor)
plainly _ = []

abbrev types : String → Option String
types uri = if uri == "wd:Q47461344" then some "work" else none

abbrev work : List Claim → InvEntity
work authors = record {
  id = "0a1";
  labels = [];
  claims = ("wdt:P31", plain (text "wd:Q47461344") ∷ []) ∷ ("wdt:P50", authors) ∷ [];
  created = 1;
  updated = none;
  version = 1;
}

abbrev before : EntityDoc
before = entity (work (plain (text "wd:Q1") ∷ []))

abbrev after_update : EntityDoc
after_update = entity (work (plain (text "wd:Q535") ∷ []))

abbrev update : ClaimUpdate
update = record {
  user_access_levels = [];
  property = "wdt:P50";
  old_value = some (text "wd:Q1");
  new_value = some (text " wd:Q535");
}

updated_ok : update_inv_claim plainly lookups node types (some before) update ≡ ok after_update
unfolding update_inv_claim validated_type get_inv_entity_type validate_typed update_claim
    validate_property validate_type_property validate_claim_property properties_of_type
    subject_types passes_pattern test_pattern test_branch matches derive nullable code_units
    includes validate_and_format_claim_value properties_values_constraints validate_with
    require_level validate_new validate_and_format_new checked_value has_primitive_type normalized
    format_value format_text validates validate_text is_entity_uri after is_digit is_word trim
    trim_start trim_end is_space is_space_code all any verify_claim_concurrency
    verify_claim_entity_type update_entity_doc_claim assert_editable_entity edited_claims replace_in
    replace_at assign update_inferred_properties trim_claim super_trim squeeze get_claim_index
    minimize_claim_object
updated_ok = refl

placeholder_obsolete :
    update_inv_claim plainly lookups node types (some (removed_placeholder (work []))) update
    ≡ err (http "this entity is obsolete" 400)
unfolding update_inv_claim
placeholder_obsolete = refl

before-IsTidy : IsTidy before
unfolding AreClean trim_claim super_trim squeeze trim_start trim_end is_space is_space_code any
before-IsTidy p cs h = elim (Bool-cases ("wdt:P31" == p)) [
  | inl e ↦
      let same : plain (text "wd:Q47461344") ∷ [] ≡ cs = ground arith in
      subst IsClean same (refl, refl, tt)
  | inr e ↦
      let same : plain (text "wd:Q1") ∷ [] ≡ cs = ground arith in
      subst IsClean same (refl, refl, tt)
]

update_inv_claim-Updated_example :
    (e : InvEntity) × (before ≡ entity e)
    × (type : Option String) × MayHave lookups e.claims type "wdt:P50"
    × (formatted : Option Claim) × IsAccepted lookups node e type update formatted
    × (holds after_update "wdt:P50" (text "wd:Q535") ≡ (
        is_of (map_claim trim_claim formatted) (text "wd:Q535")
        || (not (is_of (map_claim trim_claim (plain_claim (some (text "wd:Q1")))) (text "wd:Q535"))
            && holds before "wdt:P50" (text "wd:Q535"))))
update_inv_claim-Updated_example =
    update_inv_claim-Updated plainly lookups node types before after_update update (text "wd:Q535")
      refl before-IsTidy updated_ok
