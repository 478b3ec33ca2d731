-- ===== src/Properties/Builders.antt =====
-- The constraints that are built for one property
-- (server/controllers/entities/lib/properties/properties_config_builders.ts).
use inventaire.Base.{ℕ, String, true, some, List}
use inventaire.Properties.{
  PropertyValueConstraints, Format, is_isbn, tests, has_type_pattern, has_allowed_value,
  isbn_hyphenated, lower_case, concurrent_and_unique_string, concurrent_external_id, unique_entity,
}
use inventaire.Properties.Patterns.{Pattern}

abbrev pub isbn_property : ℕ → PropertyValueConstraints
isbn_property num = record concurrent_and_unique_string {
  validate = is_isbn num;
  format = some (isbn_hyphenated num);
  update_access_level = some "admin";
}

abbrev pub external_id_of : Pattern → PropertyValueConstraints
external_id_of regex = record concurrent_external_id { validate = tests regex }

abbrev pub typed_external_id : List (String × Pattern) → PropertyValueConstraints
typed_external_id regex_per_type = record concurrent_external_id {
  validate = has_type_pattern regex_per_type;
  type_specific_validation = true;
}

abbrev pub allowed_property_values : List (String × List String) → PropertyValueConstraints
allowed_property_values allowed_values_per_type = record unique_entity {
  validate = has_allowed_value allowed_values_per_type;
  type_specific_validation = true;
}

abbrev pub external_id_with_formatter : Pattern → Format → PropertyValueConstraints
external_id_with_formatter regex format = record (external_id_of regex) { format = some format }

abbrev pub case_insensitive_external_id : Pattern → PropertyValueConstraints
case_insensitive_external_id regex = external_id_with_formatter regex lower_case
