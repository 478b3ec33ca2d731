-- ===== src/Properties/Loose.antt =====
-- Where the constraints on properties are looser or narrower than they mean to be
-- (server/controllers/entities/lib/properties/properties_values_constraints.ts and properties.ts).
use inventaire.Base.{
  ℕ, String, true, false, ◌&&◌, ◌||◌, Option, some, List, [], ◌∷◌, ◌++◌, ◌==◌, string_eq, ◌≡◌, ◌∙◌,
  refl, ap, subst, arith, eq_of_beq, any, includes, All, if◌then◌else◌, ok, err, http, Bool-cases,
  inl, inr,
}
use inventaire.Couch.{memory_lookup}
use inventaire.Validation.{codes}
use inventaire.Entities.{text}
use inventaire.Properties.Patterns.{test_pattern, test_branch, code_units, star, anything, seq}
use inventaire.Properties.Matching.{Matches, both, matches_complete, Matches-any}
use inventaire.Properties.Builders.{external_id_of}
use inventaire.Properties.Ids.{uuid, uuid_pattern}
use inventaire.Properties.Table.{properties_values_constraints}
use inventaire.Properties.Subjects.{subject_types, properties_of_type}
use inventaire.Properties.Splits.{trim}
use inventaire.Properties.Values.{
  Platform, format_value, format_text, validates, validate_text, passes_pattern,
}
use inventaire.Properties.Checks.{
  validate_claim_property, validate_type_property, validate_property,
  validate_and_format_snak_value, validate_and_format_at, checked_value, has_primitive_type,
  invalid_value,
}

-- What holds of each pair of a list holds of a pair that is found in it.
All-at :
    (P : String → String → Type 0) (pairs : List (String × String)) (a b : String)
    → All (λ (pair : String × String). P pair.0 pair.1) pairs
    → any (λ (pair : String × String). pair.0 == a && pair.1 == b) pairs ≡ true
    → P a b
unfolding any
All-at P [] a b held found = absurd (ground arith)
All-at P ((c, d) ∷ rest) a b held found = elim (Bool-cases (c == a && d == b)) [
  | inl e ↦
      subst (λ x. P x b) (eq_of_beq c a (ground arith))
        (subst (λ y. P c y) (eq_of_beq d b (ground arith)) held.0)
  | inr e ↦ All-at P rest a b held.1 (ground arith)
]

-- Properties with a type that may have them, but that has no pattern of its own
abbrev pub gaps : List (String × String)
gaps =
    ("wdt:P648", "serie")
    ∷ ("wdt:P950", "serie")
    ∷ ("wdt:P950", "publisher")
    ∷ ("wdt:P950", "collection")
    ∷ []

All-in :
    (P : String → Type 0) (names : List String) (a : String)
    → All P names
    → includes names a ≡ true
    → P a
unfolding includes
All-in P [] a held found = absurd (ground arith)
All-in P (b ∷ rest) a held found = elim (Bool-cases (b == a)) [
  | inl e ↦ subst P (eq_of_beq b a e) held.0
  | inr e ↦ All-in P rest a held.1 (ground arith)
]

-- The properties of BookBrainz, whose pattern has no anchors
abbrev pub book_brainz_properties : List String
book_brainz_properties = "wdt:P2607" ∷ "wdt:P7823" ∷ "wdt:P8063" ∷ "wdt:P12048" ∷ "wdt:P12351" ∷ []

abbrev IsLoose : String → Type 0
IsLoose property =
    memory_lookup properties_values_constraints property ≡ some (external_id_of uuid_pattern)

book_brainz-IsLoose : All IsLoose book_brainz_properties
unfolding properties_values_constraints
book_brainz-IsLoose = (refl, (refl, (refl, (refl, (refl, tt)))))

module _ (platform : Platform) where
  abbrev IsRefused : String → String → String → Type 0
  IsRefused s property type =
      (validate_claim_property type property ≡ ok tt)
      × (validate_and_format_snak_value platform property (text s) (some type)
          ≡ err (http "unsupported type" 500))

  gaps-IsRefused : (s : String) → All (λ (g : String × String). IsRefused s g.0 g.1) gaps
  unfolding validate_claim_property validate_type_property validate_property includes
      properties_of_type subject_types properties_values_constraints passes_pattern
      validate_and_format_snak_value checked_value has_primitive_type format_value format_text
      validates validate_text
  gaps-IsRefused s = ((refl, refl), ((refl, refl), ((refl, refl), ((refl, refl), tt))))

  -- A series may have an Open Library id, and a series, a publisher or a collection an id of the
  -- Biblioteca Nacional de España, but each text given as that id is answered by an error 500.
  pub validate_and_format-gap :
      (property type s : String)
      → any (λ (gap : String × String). gap.0 == property && gap.1 == type) gaps ≡ true
      → (validate_claim_property type property ≡ ok tt)
        × (validate_and_format_snak_value platform property (text s) (some type)
            ≡ err (http "unsupported type" 500))
  validate_and_format-gap property type s h =
      All-at (IsRefused s) gaps property type (gaps-IsRefused s) h

  test_pattern-uuid :
      (before u after : List ℕ)
      → Matches uuid u
      → test_pattern uuid_pattern (before ++ (u ++ after)) ≡ true
  unfolding test_pattern test_branch any
  test_pattern-uuid before u after m =
      let found =
        matches_complete (seq (star anything) (seq uuid (star anything))) (before ++ (u ++ after)) (
          both before (u ++ after) refl (Matches-any before)
            (both u after refl m (Matches-any after))) in
      ap (λ b. b || false) found

  -- For the properties of BookBrainz any text is accepted, trimmed, that has a UUID somewhere in it,
  -- whatever stands before and after.
  pub validate_and_format-uuid :
      (property s : String) (type : Option String) (before u after : List ℕ)
      → includes book_brainz_properties property ≡ true
      → code_units (codes (trim s)) ≡ before ++ (u ++ after)
      → Matches uuid u
      → validate_and_format_snak_value platform property (text s) type ≡ ok (text (trim s))
  unfolding checked_value has_primitive_type format_value format_text validates validate_text
      passes_pattern
  validate_and_format-uuid property s type before u after h e m =
      let passes : test_pattern uuid_pattern (code_units (codes (trim s))) ≡ true =
        ap (test_pattern uuid_pattern) e ∙ test_pattern-uuid before u after m in
      validate_and_format_at platform property (text s) type (external_id_of uuid_pattern)
        (All-in IsLoose book_brainz_properties property book_brainz-IsLoose h)
      ∙ ap
          (λ b.
            if b
            then ok (text (trim s))
            else invalid_value platform (external_id_of uuid_pattern) type (text (trim s)))
          passes
