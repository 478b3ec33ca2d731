-- ===== src/Properties/Values.antt =====
-- The functions `format` and `validate` of the constraints
-- (server/controllers/entities/lib/properties/properties_config_bases.ts and
-- properties_config_builders.ts, server/lib/boolean_validations.ts, server/lib/isbn/).
use Prim.Native.String.{◌++◌ as join}
use inventaire.Base.{
  ℕ, String, Bool, false, not, ◌&&◌, ◌||◌, Option, none, some, List, [], ◌∷◌, ◌==◌, string_eq, ltb,
  nat_beq, any, all, length, includes, if◌then◌else◌, Outcome, ok, err, http, failed,
}
use inventaire.Couch.{memory_lookup}
use inventaire.Validation.{codes, is_hex, bounded_string}
use inventaire.Items.Updates.{is_entity_uri}
use inventaire.Sanitization.{strip_prefix}
use inventaire.Entities.{ClaimValue, text, number}
use inventaire.Properties.{
  Format, trimmed, without_spaces, bnf_id, lower_case, mastodon_address, bluesky_name,
  isbn_hyphenated, Validation, is_entity, is_remote_entity, is_bounded, is_url, is_simple_day,
  is_positive_integer, is_positive_integer_string, is_image_hash, is_entity_type, is_isbn, tests,
  has_type_pattern, has_allowed_value, is_instagram_name, is_linkedin_name,
  all_locally_edited_entities_types,
}
use inventaire.Properties.Patterns.{
  Pattern, test_pattern, code_units, digit_code, one_of, within, seq, alt, up_to, times, optional,
  literal, whole,
}
use inventaire.Properties.Ids.{digit, nonzero, integer, instagram}
use inventaire.Properties.Splits.{
  trim, remove_spaces, until, beyond, second_part, or_same, profile_of, until_profile, starts_with,
  has_twice, ends_with,
}

-- An ISBN as the package isbn3 parses it
pub record IsbnData : Type 0 where
  pub isbn10h : Option String
  pub isbn13h : String

-- What is not in the repository: URL, with the host of a text that it accepts; Date, with the test
-- that a text is the beginning of its ISO form; isbn3; isItemId of wikibase-sdk; toLowerCase; and
-- \p{Letter}.
pub record Platform : Type 0 where
  pub is_url : String → Bool
  pub url_host : String → Option String
  pub is_iso_date : String → Bool
  pub isbn3_parse : String → Option IsbnData
  pub is_item_id : String → Bool
  pub to_lower_case : String → String
  pub is_letter : ℕ → Bool

-- SimpleDay
abbrev pub simple_day : Pattern
simple_day =
    let part = optional (seq (literal "-") (times 2 digit)) in
    whole (
      seq (optional (literal "-"))
        (seq (alt (seq nonzero (up_to 3 digit)) (literal "0")) (seq part part)))

-- The keys of primaryTypesAliases (server/lib/wikidata/aliases.ts)
abbrev pub plural_types : List String
plural_types =
    "humans" ∷ "series" ∷ "works" ∷ "editions" ∷ "articles" ∷ "genres" ∷ "publishers"
    ∷ "collections" ∷ "movements" ∷ "languages" ∷ "meta" ∷ []

unfoldable pub passes_pattern : Pattern → String → Bool
unfolding test_pattern code_units
passes_pattern pattern s = test_pattern pattern (code_units (codes s))

-- The validation of an external id by the type of the entity
unfoldable pub typed_test : List (String × Pattern) → Option String → String → Outcome Bool
unfolding passes_pattern
typed_test regex_per_type none s =
    ok (any (λ (entry : String × Pattern). passes_pattern entry.1 s) regex_per_type)
typed_test regex_per_type (some type) s = elim (memory_lookup regex_per_type type) [
  | none ↦ err (http "unsupported type" 500)
  | some regex ↦ ok (passes_pattern regex s)
]

-- Of a value that must be among those allowed for the type, which is found by its plural
unfoldable pub allowed_test : List (String × List String) → Option String → String → Outcome Bool
allowed_test allowed none s = err (http "expected string, got undefined (undefined)" 500)
allowed_test allowed (some type) s =
    if includes plural_types (join type "s")
    then elim (memory_lookup allowed (join type "s")) [
      | none ↦ err failed
      | some values ↦ ok (includes values s)
    ]
    else err (http "invalid type" 500)

-- The third of exactly three parts
unfoldable pub third_part : String → Option (Option String)
unfolding beyond until
third_part id = elim (beyond b'@' id) [
  | none ↦ some none
  | some rest ↦ elim (beyond b'@' rest) [
    | none ↦ some none
    | some last ↦ elim (beyond b'@' last) [ none ↦ some (some last) | some _ ↦ none ]
  ]
]

module _ (platform : Platform) where
  open platform use {url_host, is_iso_date, isbn3_parse, is_item_id, to_lower_case, is_letter}

  -- parseIsbn: a text of ten digits that is no ISBN-10 is tried as the end of an ISBN-13.
  unfoldable pub parse_isbn : String → Option IsbnData
  parse_isbn isbn = elim (isbn3_parse isbn) [
    | some parsed ↦ some parsed
    | none ↦
        if nat_beq (length (codes isbn)) 10 && all digit_code (codes isbn)
        then isbn3_parse (join "978" isbn)
        else none
  ]

  abbrev pub hyphenated : ℕ → Option IsbnData → Option String
  hyphenated num none = none
  hyphenated num (some parsed) = if nat_beq num 10 then parsed.isbn10h else some parsed.isbn13h

  -- `http…@user@host` and `http…host/@user` are rewritten; a text without a URL in it makes URL throw.
  unfoldable pub mastodon_parts : String → Option String → Option String → Outcome String
  mastodon_parts id none third = ok id
  mastodon_parts id (some handle) (some host) = ok (join (join handle "@") host)
  mastodon_parts id (some handle) none = elim (url_host id) [
    | none ↦ err failed
    | some host ↦ ok (join (join handle "@") host)
  ]

  unfoldable pub format_mastodon : String → Outcome String
  unfolding mastodon_parts third_part second_part trim
  format_mastodon id =
      let finish = λ (s : String). trim (or_same (strip_prefix "@" s) s) in
      if starts_with "http" id
      then elim (third_part id) [
        | none ↦ ok (finish id)
        | some third ↦ elim (mastodon_parts id (second_part b'@' id) third) [
          | ok s ↦ ok (finish s)
          | err e ↦ err e
        ]
      ]
      else ok (finish id)

  unfoldable pub format_text : Format → String → Outcome String
  unfolding trim remove_spaces format_mastodon profile_of until_profile
  format_text trimmed s = ok (trim s)
  format_text without_spaces s = ok (remove_spaces s)
  format_text bnf_id s = ok (trim (or_same (strip_prefix "cb" s) s))
  format_text lower_case s = ok (trim (to_lower_case s))
  format_text mastodon_address s = format_mastodon s
  format_text bluesky_name s =
      let id : String = elim (profile_of s) [ none ↦ s | some rest ↦ until_profile rest ] in
      ok (trim (or_same (strip_prefix "@" id) id))
  format_text (isbn_hyphenated num) s = ok (or_same (hyphenated num (parse_isbn s)) s)

  -- `format(value)`; only texts have a format.
  unfoldable pub format_value : Option Format → ClaimValue → Outcome ClaimValue
  unfolding format_text
  format_value none v = ok v
  format_value (some format) (number n) = ok (number n)
  format_value (some format) (text s) = elim (format_text format s) [
    | ok t ↦ ok (text t)
    | err e ↦ err e
  ]

  -- isWdEntityUri
  unfoldable pub is_wd_entity_uri : String → Bool
  unfolding until second_part
  is_wd_entity_uri uri =
      until b':' uri == "wd"
      && elim (second_part b':' uri) [ none ↦ false | some id ↦ is_item_id id ]

  -- isPositiveIntegerString, isImageHash
  unfoldable pub validate_text : Validation → Option String → String → Outcome Bool
  unfolding is_wd_entity_uri typed_test allowed_test passes_pattern
  validate_text is_entity type s = ok (is_entity_uri s)
  validate_text is_remote_entity type s = ok (is_wd_entity_uri s)
  validate_text is_bounded type s = ok (bounded_string 1 1500 s)
  validate_text is_url type s = ok (platform.is_url s)
  validate_text is_simple_day type s = ok (is_iso_date s && passes_pattern simple_day s)
  validate_text is_positive_integer type s = ok false
  validate_text is_positive_integer_string type s = ok (passes_pattern integer s)
  validate_text is_image_hash type s = ok (nat_beq (length (codes s)) 40 && all is_hex (codes s))
  validate_text is_entity_type type s = ok (includes all_locally_edited_entities_types s)
  validate_text (is_isbn num) type s =
      ok (elim (hyphenated num (parse_isbn s)) [ none ↦ false | some isbn ↦ s == isbn ])
  validate_text (tests pattern) type s = ok (passes_pattern pattern s)
  validate_text (has_type_pattern regex_per_type) type s = typed_test regex_per_type type s
  validate_text (has_allowed_value allowed) type s = allowed_test allowed type s
  validate_text is_instagram_name type s = ok (
      passes_pattern instagram s
      && (not (has_twice b'.' (codes s)) && not (ends_with b'.' (codes s))))
  validate_text is_linkedin_name type s = ok (
      not (nat_beq (length (codes s)) 0)
      && all (λ c. is_letter c || (within b'0' b'9' c || one_of "-&_'’." c)) (codes s))

  -- Only `positiveInteger` is of numbers; it takes those above 0.
  unfoldable pub validates : Validation → Option String → ClaimValue → Outcome Bool
  unfolding validate_text
  validates validation type (text s) = validate_text validation type s
  validates is_positive_integer type (number n) = ok (ltb 0 n)
  validates _ type (number n) = ok false
