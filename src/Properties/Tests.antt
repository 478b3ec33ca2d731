-- ===== src/Properties/Tests.antt =====
-- A platform that knows one ISBN, two claims, and the theorems at these inputs.
use inventaire.Base.{
  String, true, false, ◌||◌, none, some, [], ◌∷◌, ◌==◌, string_eq, any, all, includes,
  if◌then◌else◌, ok, err, http, failed, ◌≡◌, refl, nat_eq,
}
use inventaire.Entities.{text, number, plain}
use inventaire.Sanitization.{strip_prefix}
use inventaire.Texts.{is_space, trim_start, trim_end}
use inventaire.Properties.{without_spaces, bnf_id, mastodon_address, bluesky_name, isbn_hyphenated}
use inventaire.Texts.Trimming.{trim_twice}
use inventaire.Texts.{is_space_code}
use inventaire.Couch.{memory_lookup}
use inventaire.Validation.{codes}
use inventaire.Items.Updates.{is_entity_uri, after, is_digit, is_word}
use inventaire.Properties.{PropertyValueConstraints}
use inventaire.Properties.Patterns.{
  test_pattern, test_branch, matches, derive, nullable, code_units,
}
use inventaire.Properties.Matching.{matches_sound}
use inventaire.Properties.Ids.{uuid}
use inventaire.Properties.Subjects.{properties_of_type, subject_types}
use inventaire.Properties.Checks.{
  validate_claim_property, validate_type_property, validate_property,
  validate_and_format_snak_value, checked_value, has_primitive_type,
}
use inventaire.Properties.Claims.{
  Lookups, ClaimRequest, validate_and_format_claim_value, validate_with, require_level,
  validate_new, validate_and_format_new, normalized, verify_claim_concurrency,
  verify_claim_entity_type,
}
use inventaire.Properties.Admitted.{IsAdmitted, validate_and_format_claim_value-IsAdmitted}
use inventaire.Properties.Supported.{is_answer, is_answer-validate_and_format}
use inventaire.Properties.Stable.{validate_and_format_again}
use inventaire.Properties.Loose.{validate_and_format-gap, validate_and_format-uuid}
use inventaire.Properties.Table.{properties_values_constraints}
use inventaire.Properties.Splits.{
  trim, remove_spaces, second_part, beyond, until, profile_of, until_profile,
}
use inventaire.Properties.Values.{
  Platform, parse_isbn, format_text, format_mastodon, mastodon_parts, third_part, passes_pattern,
  format_value, validates, validate_text,
}

abbrev hyphenated_isbn : String
hyphenated_isbn = "978-2-07-036822-8"

abbrev pub node : Platform
node = record {
  is_url = λ s. s == "https://inventaire.io";
  url_host = λ _. none;
  is_iso_date = λ s. s == "2020-01-02";
  isbn3_parse = λ s.
      if s == "9782070368228" || s == hyphenated_isbn
      then some (record { isbn10h = some "2-07-036822-X"; isbn13h = hyphenated_isbn })
      else none;
  is_item_id = λ s. s == "Q535";
  to_lower_case = λ s. s;
  is_letter = λ _. false;
}

isbn_formatted : format_text node (isbn_hyphenated 13) "9782070368228" ≡ ok hyphenated_isbn
unfolding format_text parse_isbn
isbn_formatted = refl

spaces_removed : format_text node without_spaces "0000 0001 2144 3729" ≡ ok "0000000121443729"
unfolding format_text remove_spaces is_space
spaces_removed = refl

bnf_formatted : format_text node bnf_id "cb11888092r" ≡ ok "11888092r"
unfolding format_text trim trim_start trim_end is_space strip_prefix
bnf_formatted = refl

mastodon_formatted :
    format_text node mastodon_address "@inventaire@mamot.fr" ≡ ok "inventaire@mamot.fr"
unfolding format_text format_mastodon trim trim_start trim_end is_space strip_prefix
mastodon_formatted = refl

bluesky_formatted : format_text node bluesky_name "https://bsky.app/profile/a.b" ≡ ok "a.b"
unfolding format_text profile_of until_profile trim trim_start trim_end is_space strip_prefix
bluesky_formatted = refl

mastodon_url_fails : format_text node mastodon_address "http_fan@mamot.fr" ≡ err failed
unfolding format_text format_mastodon mastodon_parts third_part second_part beyond until
    strip_prefix
mastodon_url_fails = refl

-- An author that is there and is a human, and another entity with its BookBrainz id
abbrev pub lookups : Lookups
lookups = record {
  ids_by_claim = λ property v. if property == "wdt:P2607" then "0b1" ∷ [] else [];
  type_by_uri = λ v. elim v [
    | text uri ↦ if uri == "wd:Q535" then some (some "human") else none
    | number _ ↦ none
  ];
  normalize = λ s. s;
}

abbrev author_request : ClaimRequest
author_request = record {
  type = some "work";
  property = "wdt:P50";
  old_claim = some (plain (text "wd:Q1"));
  new_claim = some (plain (text " wd:Q535"));
  let_empty_value_pass = false;
  user_access_levels = [];
  id = "0a1";
}

author_accepted :
    validate_and_format_claim_value lookups node author_request ≡ ok (some (plain (text "wd:Q535")))
unfolding validate_and_format_claim_value properties_values_constraints validate_with require_level
    validate_new validate_and_format_new checked_value has_primitive_type normalized format_value
    format_text validates validate_text is_entity_uri after is_digit is_word trim trim_start
    trim_end is_space is_space_code all any includes verify_claim_concurrency
    verify_claim_entity_type
author_accepted = refl

abbrev some_uuid : String
some_uuid = "3b41a3c6-0f0f-4d2e-9a2f-0a1b2c3d4e5f"

shared_id_refused :
    validate_and_format_claim_value lookups node
      (record author_request { property = "wdt:P2607"; new_claim = some (plain (text some_uuid)) })
    ≡ err (http "invalid claim value: this property value is already used" 400)
unfolding validate_and_format_claim_value properties_values_constraints validate_with require_level
    passes_pattern test_pattern test_branch matches derive nullable code_units validate_new
    validate_and_format_new checked_value has_primitive_type normalized format_value format_text
    validates validate_text is_entity_uri after is_digit is_word trim trim_start trim_end is_space
    is_space_code all any includes verify_claim_concurrency verify_claim_entity_type
shared_id_refused = refl

validate_and_format_claim_value-IsAdmitted_example :
    (c : PropertyValueConstraints) × (memory_lookup properties_values_constraints "wdt:P50"
      ≡ some c)
    × IsAdmitted lookups node c author_request (plain (text "wd:Q535"))
validate_and_format_claim_value-IsAdmitted_example =
    validate_and_format_claim_value-IsAdmitted lookups node author_request (plain (text "wd:Q535"))
      author_accepted

is_answer-validate_and_format_example :
    is_answer (validate_and_format_snak_value node "wdt:P648" (text "OL26320A") (some "human"))
    ≡ true
unfolding validate_claim_property validate_type_property validate_property properties_of_type
    subject_types properties_values_constraints passes_pattern test_pattern test_branch matches
    derive nullable code_units includes
is_answer-validate_and_format_example =
    is_answer-validate_and_format node "human" "wdt:P648" (text "OL26320A") refl refl refl

validate_and_format_again_example :
    validate_and_format_snak_value node "wdt:P213" (text "0000000121443729") none
    ≡ ok (text "0000000121443729")
unfolding validate_and_format_snak_value properties_values_constraints checked_value
    has_primitive_type format_value format_text validates validate_text remove_spaces is_space
    is_space_code passes_pattern test_pattern test_branch matches derive nullable code_units
    includes
validate_and_format_again_example =
    validate_and_format_again node trim_twice "wdt:P213" none (text "0000 0001 2144 3729")
      (text "0000000121443729") refl refl

validate_and_format-gap_example :
    (validate_claim_property "serie" "wdt:P648" ≡ ok tt)
    × (validate_and_format_snak_value node "wdt:P648" (text "OL1W") (some "serie")
        ≡ err (http "unsupported type" 500))
unfolding any
validate_and_format-gap_example = validate_and_format-gap node "wdt:P648" "serie" "OL1W" refl

id_within_a_text :
    validate_and_format_snak_value node "wdt:P2607"
      (text "see 3b41a3c6-0f0f-4d2e-9a2f-0a1b2c3d4e5f!")
      none
    ≡ ok (text "see 3b41a3c6-0f0f-4d2e-9a2f-0a1b2c3d4e5f!")
unfolding includes trim trim_start trim_end is_space is_space_code code_units matches derive
    nullable
id_within_a_text =
    validate_and_format-uuid node "wdt:P2607" "see 3b41a3c6-0f0f-4d2e-9a2f-0a1b2c3d4e5f!" none
      (codes "see ") (codes some_uuid) (codes "!") refl refl
      (matches_sound uuid (codes some_uuid) refl)
