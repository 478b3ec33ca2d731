-- ===== src/Properties/Covered.antt =====
-- That the constraints cover the types that may have each property
-- (server/controllers/entities/lib/properties/properties.ts and properties_values_constraints.ts).
use inventaire.Base.{
  String, Bool, true, false, not, ◌&&◌, ◌||◌, Option, none, some, List, [], ◌∷◌, ◌==◌, string_eq,
  ◌≡◌, refl, subst, arith, eq_of_beq, all, includes, ok, Bool-cases, inl, inr,
}
use Prim.Native.String.{◌++◌ as join}
use inventaire.Couch.{memory_lookup}
use inventaire.Entities.{ClaimValue, text, number}
use inventaire.Properties.{
  Validation, Format, mastodon_address, has_type_pattern, has_allowed_value,
}
use inventaire.Properties.Table.{properties_values_constraints}
use inventaire.Properties.Subjects.{Subjects, subject_types, properties_of_type}
use inventaire.Properties.Splits.{starts_with}
use inventaire.Properties.Values.{plural_types}
use inventaire.Properties.Checks.{validate_claim_property, validate_type_property}

abbrev pub is_present : {A : Type 0} → Option A → Bool
is_present none = false
is_present (some _) = true

-- A test by type has an entry for the type.
abbrev pub has_entry : Validation → Bool → String → Bool
has_entry (has_type_pattern regex_per_type) type_specific type =
    is_present (memory_lookup regex_per_type type)
has_entry (has_allowed_value allowed) type_specific type =
    type_specific
    && (includes plural_types (join type "s") && is_present (memory_lookup allowed (join type "s")))
has_entry _ type_specific type = true

abbrev pub is_mastodon : Option Format → Bool
is_mastodon (some mastodon_address) = true
is_mastodon _ = false

-- The pairs of a property and a type that has it for which there is no pattern
abbrev pub is_unpatterned : String → String → Bool
is_unpatterned property type =
    (property == "wdt:P648" || property == "wdt:P950")
    && not (includes ("edition" ∷ "work" ∷ "human" ∷ []) type)

-- A Mastodon address that begins like a URL
abbrev pub is_mastodon_url : String → ClaimValue → Bool
is_mastodon_url property (text s) = property == "wdt:P4033" && starts_with "http" s
is_mastodon_url property (number _) = false

unfoldable pub is_supported : String → String → Bool
is_supported property type =
    is_unpatterned property type || elim (memory_lookup properties_values_constraints property) [
      | none ↦ false
      | some c ↦
          has_entry c.validate c.type_specific_validation type
          && (not (is_mastodon c.format) || property == "wdt:P4033")
    ]

all_supported : all (λ (e : String × List String). all (is_supported e.0) e.1) subject_types ≡ true
unfolding all is_supported subject_types properties_values_constraints includes
all_supported = refl

all-at :
    (p : String → Bool) (xs : List String) (x : String)
    → all p xs ≡ true
    → includes xs x ≡ true
    → p x ≡ true
unfolding all includes
all-at p [] x h m = absurd (ground arith)
all-at p (y ∷ ys) x h m = elim (Bool-cases (y == x)) [
  | inl e ↦ subst (λ z. p z ≡ true) (eq_of_beq y x e) (ground arith)
  | inr e ↦ all-at p ys x (ground arith) (ground arith)
]

-- What holds of each type of each property holds of the properties of a type.
of_type-all :
    (p : String → String → Bool) (subjects : Subjects) (type property : String)
    → all (λ (e : String × List String). all (p e.0) e.1) subjects ≡ true
    → includes (properties_of_type type subjects) property ≡ true
    → p property type ≡ true
unfolding all includes properties_of_type
of_type-all p [] type property h m = absurd (ground arith)
of_type-all p ((key, types) ∷ rest) type property h m =
    let others = of_type-all p rest type property in
    elim (Bool-cases (includes types type)) [
      | inl at ↦ elim (Bool-cases (key == property)) [
        | inl e ↦
            subst (λ k. p k type ≡ true) (eq_of_beq key property e)
              (all-at (p key) types type (ground arith) at)
        | inr e ↦ others (ground arith) (ground arith)
      ]
      | inr not_at ↦ others (ground arith) (ground arith)
    ]

pub supported_of_type :
    (type property : String)
    → validate_claim_property type property ≡ ok tt
    → is_supported property type ≡ true
unfolding validate_claim_property validate_type_property
supported_of_type type property h =
    of_type-all is_supported subject_types type property all_supported (ground arith)
