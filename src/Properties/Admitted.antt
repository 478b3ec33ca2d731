-- ===== src/Properties/Admitted.antt =====
-- What a claim that passes the validation is
-- (server/controllers/entities/lib/validate_and_format_claim_value.ts).
use inventaire.Base.{
  ℕ, String, Bool, true, false, not, ◌||◌, Option, none, some, List, includes, string_eq,
  if◌then◌else◌, ok, require, ◌≡◌, ◌∙◌, refl, sym, ap, subst, arith, Option-cases, Bool-cases,
  bind_inv, seq_inv, inl, inr,
}
use inventaire.Couch.{memory_lookup}
use inventaire.Entities.{ClaimValue, Claim, plain, object, get_claim_value, set_claim_value}
use inventaire.Properties.{PropertyValueConstraints}
use inventaire.Properties.Table.{properties_values_constraints}
use inventaire.Properties.Values.{Platform, format_value, validates}
use inventaire.Properties.Checks.{checked_value, checked_inv, type_for}
use inventaire.Properties.Claims.{
  Lookups, ClaimRequest, require_level, is_claim, normalized, is_only, verify_claim_concurrency,
  type_is_in, verify_claim_entity_type, validate_and_format_new, validate_new, validate_with,
  validate_and_format_claim_value,
}

require_inv :
    (b : Bool) (message : String) (status : ℕ) → require b message status ≡ ok tt → b ≡ true
require_inv true message status h = refl
require_inv false message status h = absurd (ground arith)

abbrev pub has_level : Option String → List String → Bool
has_level none levels = true
has_level (some level) levels = includes levels level

has_level-require :
    (level : Option String) (levels : List String) (action : String)
    → require_level level levels action ≡ ok tt
    → has_level level levels ≡ true
unfolding require_level
has_level-require none levels action h = refl
has_level-require (some level) levels action h = ground arith

value-set_claim_value : (c : Claim) (v : ClaimValue) → get_claim_value (set_claim_value c v) ≡ v
value-set_claim_value (plain _) v = refl
value-set_claim_value (object _ _) v = refl

-- Whether the entity at a uri is of one of the types that are asked for, if any are
abbrev pub is_of_types : Option (List String) → Option (Option String) → Bool
is_of_types none found = true
is_of_types (some types) found = type_is_in types found

module _ (lookups : Lookups) (platform : Platform) where
  -- What is known of the claim that is accepted, by the constraints of its property
  pub record IsAdmitted (c : PropertyValueConstraints) (req : ClaimRequest) (claim : Claim)
      : Type 0 where
    pub may_edit : has_level c.edit_access_level req.user_access_levels ≡ true
    pub may_update :
        (not (is_claim req.old_claim) || has_level c.update_access_level req.user_access_levels)
        ≡ true
    pub valid :
        validates platform c.validate
          (type_for c.type_specific_validation req.type)
          (get_claim_value claim)
        ≡ ok true
    pub unused :
        (not c.concurrency
          || is_only req.id (lookups.ids_by_claim req.property (get_claim_value claim)))
        ≡ true
    pub of_type :
        is_of_types c.entity_value_types (lookups.type_by_uri (get_claim_value claim)) ≡ true

  of_type_inv :
      (types : Option (List String)) (v : ClaimValue)
      → verify_claim_entity_type lookups types v ≡ ok tt
      → is_of_types types (lookups.type_by_uri v) ≡ true
  unfolding verify_claim_entity_type
  of_type_inv none v h = refl
  of_type_inv (some types) v h = elim (Option-cases (lookups.type_by_uri v)) [
    | inl e ↦ absurd (ground arith)
    | inr (_, e) ↦ ground arith
  ]

  new_inv :
      (c : PropertyValueConstraints) (req : ClaimRequest) (claim claim' : Claim)
      → validate_and_format_new lookups platform c req claim ≡ ok claim'
      → (w : ClaimValue) × (claim' ≡ set_claim_value claim w)
        × (validates platform c.validate (type_for c.type_specific_validation req.type) w ≡ ok true)
        × ((not c.concurrency || is_only req.id (lookups.ids_by_claim req.property w)) ≡ true)
        × (is_of_types c.entity_value_types (lookups.type_by_uri w) ≡ true)
  unfolding validate_and_format_new verify_claim_concurrency
  new_inv c req claim claim' h =
      let v = normalized lookups (get_claim_value claim) in
      let (u, e, h1) = bind_inv (checked_value platform c req.type v) _ claim' h in
      let (w, f, h2) = bind_inv (format_value platform c.format v) _ claim' h1 in
      let (alone, h3) =
        seq_inv (verify_claim_concurrency lookups c.concurrency req.property w req.id) _ claim'
          h2 in
      let (typed, h4) =
        seq_inv (verify_claim_entity_type lookups c.entity_value_types w) _ claim' h3 in
      let (_, f', valid) = checked_inv platform c req.type v u e in
      let same : u ≡ w = ground arith in
      let valid' =
        subst
          (λ (x : ClaimValue).
            validates platform c.validate (type_for c.type_specific_validation req.type) x
            ≡ ok true)
          same valid in
      (w, ground arith, valid', require_inv _ _ 400 alone, of_type_inv c.entity_value_types w typed)

  validate_new_inv :
      (c : PropertyValueConstraints) (req : ClaimRequest) (claim : Claim)
      → validate_new lookups platform c req ≡ ok (some claim)
      → (given : Claim) × (validate_and_format_new lookups platform c req given ≡ ok claim)
  unfolding validate_new validate_and_format_new
  validate_new_inv c req claim h = elim (Option-cases req.new_claim) [
    | inl e ↦ elim (Bool-cases req.let_empty_value_pass) [
      | inl p ↦ absurd (ground arith)
      | inr p ↦ absurd (ground arith)
    ]
    | inr (given, e) ↦
        let (formatted, f, h1) =
          bind_inv (validate_and_format_new lookups platform c req given) _ (some claim)
            (rw e at h) in
        let same : formatted ≡ claim = ground arith in (given, f ∙ ap ok same)
  ]

  has_level-update :
      (was : Bool) (level : Option String) (levels : List String)
      → require_level (if was then level else none) levels "updating" ≡ ok tt
      → (not was || has_level level levels) ≡ true
  has_level-update true level levels h = has_level-require level levels "updating" h
  has_level-update false level levels h = refl

  validate_with-IsAdmitted :
      (c : PropertyValueConstraints) (req : ClaimRequest) (claim : Claim)
      → validate_with lookups platform c req ≡ ok (some claim)
      → IsAdmitted c req claim
  unfolding validate_with
  validate_with-IsAdmitted c req claim h =
      let (edits, h1) =
        seq_inv (require_level c.edit_access_level req.user_access_levels "editing") _ (some claim)
          h in
      let (updates, h2) =
        seq_inv
          (require_level (if is_claim req.old_claim then c.update_access_level else none)
            req.user_access_levels "updating")
          _ (some claim) h1 in
      let (given, f) = validate_new_inv c req claim h2 in
      let (w, e, valid, alone, typed) = new_inv c req given claim f in
      let value : w ≡ get_claim_value claim =
        sym (ap get_claim_value e ∙ value-set_claim_value given w) in
      record {
        may_edit = has_level-require c.edit_access_level req.user_access_levels "editing" edits;
        may_update =
            has_level-update (is_claim req.old_claim) c.update_access_level req.user_access_levels
              updates;
        valid =
            subst
              (λ x.
                validates platform c.validate (type_for c.type_specific_validation req.type) x
                ≡ ok true)
              value valid;
        unused =
            subst
              (λ x.
                (not c.concurrency || is_only req.id (lookups.ids_by_claim req.property x)) ≡ true)
              value alone;
        of_type =
            subst (λ x. is_of_types c.entity_value_types (lookups.type_by_uri x) ≡ true) value
              typed;
      }

  -- A claim that the validation accepts is of a property of the table: the user may edit it, and may
  -- update it where there was a claim before; its value passes the validation of the property for the
  -- type of the entity; if values of the property are not shared, no other entity has it; and if the value
  -- is an entity of some types, the entity is there and is of one of them.
  pub validate_and_format_claim_value-IsAdmitted :
      (req : ClaimRequest) (claim : Claim)
      → validate_and_format_claim_value lookups platform req ≡ ok (some claim)
      → (c : PropertyValueConstraints) × (memory_lookup properties_values_constraints req.property
          ≡ some c)
        × IsAdmitted c req claim
  unfolding validate_and_format_claim_value
  validate_and_format_claim_value-IsAdmitted req claim h =
      elim (Option-cases (memory_lookup properties_values_constraints req.property)) [
        | inl e ↦ absurd (ground arith)
        | inr (c, e) ↦ (c, e, validate_with-IsAdmitted c req claim (ground arith))
      ]
