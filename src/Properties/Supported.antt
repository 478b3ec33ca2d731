-- ===== src/Properties/Supported.antt =====
-- Which answers the validation of a claim gives, for a property that the type of the entity has.
use inventaire.Base.{
  String, Bool, true, false, not, ◌||◌, Option, none, some, ◌==◌, string_eq, ◌≡◌, ◌∙◌, refl, ap,
  arith, nat_beq, if◌then◌else◌, Outcome, ok, err, http, failed, ◌>>=◌, ◌>>◌, Option-cases,
  Bool-cases, inl, inr, require,
}
use Prim.Native.String.{◌++◌ as join}
use inventaire.Couch.{memory_lookup}
use inventaire.Entities.{ClaimValue, text, number}
use inventaire.Properties.{
  PropertyValueConstraints, Validation, Format, mastodon_address, has_type_pattern,
  has_allowed_value,
}
use inventaire.Properties.Table.{properties_values_constraints}
use inventaire.Properties.Values.{
  Platform, format_value, format_text, validates, validate_text, typed_test, allowed_test,
  format_mastodon,
}
use inventaire.Properties.Checks.{
  validate_claim_property, checked_value, invalid_value, validate_and_format_snak_value,
  validate_and_format_at, type_for,
}
use inventaire.Properties.Covered.{
  has_entry, is_mastodon, is_unpatterned, is_mastodon_url, is_supported, supported_of_type,
}

-- An answer to the client: the value, or an error 400.
abbrev pub is_answer : {A : Type 0} → Outcome A → Bool
is_answer (ok a) = true
is_answer (err (http _ status)) = nat_beq status 400
is_answer (err failed) = false

is_answer-bind :
    {A B : Type 0} (m : Outcome A) (next : A → Outcome B)
    → is_answer m ≡ true
    → ((a : A) → is_answer (next a) ≡ true)
    → is_answer (m >>= next) ≡ true
is_answer-bind (ok a) next h k = k a
is_answer-bind (err (http _ _)) next h k = h
is_answer-bind (err failed) next h k = h

is_answer-require :
    {B : Type 0} (b : Bool) (message : String) (rest : Outcome B)
    → is_answer rest ≡ true
    → is_answer (require b message 400 >> rest) ≡ true
is_answer-require true message rest h = h
is_answer-require false message rest h = refl

is_answer-if :
    {A : Type 0} (b : Bool) (m n : Outcome A)
    → is_answer m ≡ true
    → is_answer n ≡ true
    → is_answer (if b then m else n) ≡ true
is_answer-if true m n h k = h
is_answer-if false m n h k = k

module _ (platform : Platform) where
  is_answer-format :
      (format : Option Format) (v : ClaimValue)
      → is_mastodon format ≡ false
      → is_answer (format_value platform format v) ≡ true
  unfolding format_value format_text
  is_answer-format none v h = refl
  is_answer-format (some f) (number n) h = refl
  is_answer-format (some Format.trimmed) (text s) h = refl
  is_answer-format (some Format.without_spaces) (text s) h = refl
  is_answer-format (some Format.bnf_id) (text s) h = refl
  is_answer-format (some Format.lower_case) (text s) h = refl
  is_answer-format (some Format.bluesky_name) (text s) h = refl
  is_answer-format (some (Format.isbn_hyphenated n)) (text s) h = refl
  is_answer-format (some mastodon_address) (text s) h = absurd (ground arith)

  is_answer-validate_text :
      (validation : Validation) (type_specific : Bool) (type s : String)
      → has_entry validation type_specific type ≡ true
      → is_answer (validate_text platform validation (type_for type_specific (some type)) s) ≡ true
  unfolding validate_text typed_test allowed_test
  is_answer-validate_text (has_type_pattern regexes) true type s h =
      elim (Option-cases (memory_lookup regexes type)) [
        | inl e ↦ absurd (ground arith)
        | inr (_, e) ↦ ground arith
      ]
  is_answer-validate_text (has_type_pattern regexes) false type s h = refl
  is_answer-validate_text (has_allowed_value allowed) true type s h =
      elim (Option-cases (memory_lookup allowed (join type "s"))) [
        | inl e ↦ absurd (ground arith)
        | inr (_, e) ↦ ground arith
      ]
  is_answer-validate_text (has_allowed_value allowed) false type s h = absurd (ground arith)
  is_answer-validate_text Validation.is_entity b type s h = refl
  is_answer-validate_text Validation.is_remote_entity b type s h = refl
  is_answer-validate_text Validation.is_bounded b type s h = refl
  is_answer-validate_text Validation.is_url b type s h = refl
  is_answer-validate_text Validation.is_simple_day b type s h = refl
  is_answer-validate_text Validation.is_positive_integer b type s h = refl
  is_answer-validate_text Validation.is_positive_integer_string b type s h = refl
  is_answer-validate_text Validation.is_image_hash b type s h = refl
  is_answer-validate_text Validation.is_entity_type b type s h = refl
  is_answer-validate_text (Validation.is_isbn n) b type s h = refl
  is_answer-validate_text (Validation.tests pattern) b type s h = refl
  is_answer-validate_text Validation.is_instagram_name b type s h = refl
  is_answer-validate_text Validation.is_linkedin_name b type s h = refl

  is_answer-validate :
      (validation : Validation) (type_specific : Bool) (type : String) (v : ClaimValue)
      → has_entry validation type_specific type ≡ true
      → is_answer (validates platform validation (type_for type_specific (some type)) v) ≡ true
  unfolding validates
  is_answer-validate validation b type (text s) h = is_answer-validate_text validation b type s h
  is_answer-validate Validation.is_positive_integer b type (number n) h = refl
  is_answer-validate _ b type (number n) h = refl

  is_answer-invalid :
      (c : PropertyValueConstraints) (type : Option String) (v : ClaimValue)
      → is_answer (invalid_value platform c type v) ≡ true
  unfolding invalid_value
  is_answer-invalid c none v = ground arith
  is_answer-invalid c (some t) v = ground arith

  is_answer-checked :
      (c : PropertyValueConstraints) (type : String) (v : ClaimValue)
      → has_entry c.validate c.type_specific_validation type ≡ true
      → is_answer (format_value platform c.format v) ≡ true
      → is_answer (checked_value platform c (some type) v) ≡ true
  unfolding checked_value
  is_answer-checked c type v entry formatted =
      let validated =
        λ (w : ClaimValue). is_answer-validate c.validate c.type_specific_validation type w entry in
      search (
        is_answer-require,
        is_answer-bind,
        is_answer-if,
        is_answer-invalid c (some type),
        formatted,
        validated,
      )

  is_answer-mastodon :
      (format : Option Format) (property : String) (v : ClaimValue)
      → property == "wdt:P4033" ≡ true
      → is_mastodon_url property v ≡ false
      → is_answer (format_value platform format v) ≡ true
  unfolding format_value format_text format_mastodon
  is_answer-mastodon (some mastodon_address) property (text s) e h = ground arith
  is_answer-mastodon (some mastodon_address) property (number n) e h = refl
  is_answer-mastodon none property v e h = refl
  is_answer-mastodon (some Format.trimmed) property v e h =
      is_answer-format (some Format.trimmed) v refl
  is_answer-mastodon (some Format.without_spaces) property v e h =
      is_answer-format (some Format.without_spaces) v refl
  is_answer-mastodon (some Format.bnf_id) property v e h =
      is_answer-format (some Format.bnf_id) v refl
  is_answer-mastodon (some Format.lower_case) property v e h =
      is_answer-format (some Format.lower_case) v refl
  is_answer-mastodon (some Format.bluesky_name) property v e h =
      is_answer-format (some Format.bluesky_name) v refl
  is_answer-mastodon (some (Format.isbn_hyphenated n)) property v e h =
      is_answer-format (some (Format.isbn_hyphenated n)) v refl

  -- The format throws only on a Mastodon address that begins like a URL.
  is_answer-format_of :
      (c : PropertyValueConstraints) (property : String) (v : ClaimValue)
      → (not (is_mastodon c.format) || property == "wdt:P4033") ≡ true
      → is_mastodon_url property v ≡ false
      → is_answer (format_value platform c.format v) ≡ true
  is_answer-format_of c property v h k = elim (Bool-cases (is_mastodon c.format)) [
    | inl e ↦ is_answer-mastodon c.format property v (ground arith) k
    | inr e ↦ is_answer-format c.format v e
  ]

  -- The validation of a value of a property that the type of the entity has answers with the value or
  -- with an error 400, but for the two properties with a pattern for some types only, with another type,
  -- and for a Mastodon address that begins with http.
  pub is_answer-validate_and_format :
      (type property : String) (v : ClaimValue)
      → validate_claim_property type property ≡ ok tt
      → is_unpatterned property type ≡ false
      → is_mastodon_url property v ≡ false
      → is_answer (validate_and_format_snak_value platform property v (some type)) ≡ true
  unfolding is_supported
  is_answer-validate_and_format type property v h unpatterned mastodon =
      let supported = supported_of_type type property h in
      elim (Option-cases (memory_lookup properties_values_constraints property)) [
        | inl e ↦ absurd (ground arith)
        | inr (c, e) ↦
            let entry : has_entry c.validate c.type_specific_validation type ≡ true =
              ground arith in
            let calm : (not (is_mastodon c.format) || property == "wdt:P4033") ≡ true =
              ground arith in
            ap is_answer (validate_and_format_at platform property v (some type) c e)
            ∙ is_answer-checked c type v entry (is_answer-format_of c property v calm mastodon)
      ]
