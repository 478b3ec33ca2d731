-- ===== src/Properties.antt =====
-- The properties of entities (server/controllers/entities/lib/properties/ and server/types/property.ts):
-- what constrains their values. The bases of the constraints are those of properties_config_bases.ts.
pub mod Patterns
mod Matching
mod Builders
mod Splits
mod Values
mod Ids
mod Table
mod Subjects
mod Checks
mod Claims
mod Updating
mod Admitted
mod Updated
mod Covered
mod Supported
mod Stable
mod Loose
mod Tests
mod UpdatingTests
use inventaire.Base.{ℕ, String, Bool, true, false, Option, none, some, List, [], ◌∷◌}
use inventaire.Properties.Patterns.{Pattern}

-- PropertyDatatype and PrimitiveType
pub data Datatype : Type 0 where
  entity_uri string_value external_id url date positive_integer positive_integer_string : Datatype
  image entity_type : Datatype

pub data PrimitiveType : Type 0 where
  string number : PrimitiveType

-- The functions `format` and `validate` of the constraints, named: Properties/Values has what they do.
pub data Format : Type 0 where
  trimmed without_spaces bnf_id lower_case mastodon_address bluesky_name : Format
  isbn_hyphenated : ℕ → Format

pub data Validation : Type 0 where
  is_entity is_remote_entity is_bounded is_url is_simple_day : Validation
  is_positive_integer is_positive_integer_string is_image_hash is_entity_type : Validation
  is_isbn : ℕ → Validation
  tests : Pattern → Validation
  has_type_pattern : List (String × Pattern) → Validation
  has_allowed_value : List (String × List String) → Validation
  is_instagram_name is_linkedin_name : Validation

-- PropertyValueConstraints
pub record PropertyValueConstraints : Type 0 where
  pub datatype : Datatype
  pub primitive_type : PrimitiveType
  pub format : Option Format
  pub validate : Validation
  pub unique_value : Bool
  pub concurrency : Bool
  pub has_placeholders : Bool
  pub type_specific_validation : Bool
  pub remote_entity_only : Bool
  pub entity_value_types : Option (List String)
  pub edit_access_level : Option String
  pub update_access_level : Option String

abbrev pub base : Datatype → Validation → PropertyValueConstraints
base datatype validate = record {
  datatype = datatype;
  primitive_type = string;
  format = some trimmed;
  validate = validate;
  unique_value = false;
  concurrency = false;
  has_placeholders = false;
  type_specific_validation = false;
  remote_entity_only = false;
  entity_value_types = none;
  edit_access_level = none;
  update_access_level = none;
}

abbrev pub any_entity : PropertyValueConstraints
any_entity = base entity_uri is_entity

abbrev pub remote_entity : PropertyValueConstraints
remote_entity = record (base entity_uri is_remote_entity) { remote_entity_only = true }

abbrev pub any_string : PropertyValueConstraints
any_string = base string_value is_bounded

abbrev pub unique_string : PropertyValueConstraints
unique_string = record any_string { unique_value = true }

-- workEntity, serieEntity and the like
abbrev pub entity_of : List String → PropertyValueConstraints
entity_of types = record any_entity { entity_value_types = some types }

abbrev pub human_entity : PropertyValueConstraints
human_entity = entity_of ("human" ∷ [])

abbrev pub work_or_serie_entity : PropertyValueConstraints
work_or_serie_entity = entity_of ("work" ∷ "serie" ∷ [])

abbrev pub unique_entity : PropertyValueConstraints
unique_entity = record any_entity { unique_value = true }

abbrev pub concurrent_and_unique_string : PropertyValueConstraints
concurrent_and_unique_string = record unique_string { concurrency = true }

abbrev pub concurrent_external_id : PropertyValueConstraints
concurrent_external_id = record any_string { concurrency = true; datatype = external_id }

abbrev pub any_url : PropertyValueConstraints
any_url = base url is_url

abbrev pub unique_simple_day : PropertyValueConstraints
unique_simple_day = record (base date is_simple_day) { unique_value = true }

abbrev pub a_positive_integer : PropertyValueConstraints
a_positive_integer = record (base positive_integer is_positive_integer) {
  primitive_type = number;
  format = none;
  unique_value = true;
}

abbrev pub a_positive_integer_string : PropertyValueConstraints
a_positive_integer_string = record (base positive_integer_string is_positive_integer_string) {
  unique_value = true;
}

abbrev pub an_image_hash : PropertyValueConstraints
an_image_hash = record (base image is_image_hash) { unique_value = true }

abbrev pub an_entity_type : PropertyValueConstraints
an_entity_type = record (base entity_type is_entity_type) {
  edit_access_level = some "admin";
  remote_entity_only = true;
}

abbrev pub all_locally_edited_entities_types : List String
all_locally_edited_entities_types =
    "edition" ∷ "work" ∷ "serie" ∷ "human" ∷ "publisher" ∷ "collection" ∷ []
