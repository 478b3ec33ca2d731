-- ===== src/Properties/Stable.antt =====
-- What is stored passes the validation again
-- (server/controllers/entities/lib/validate_claim_sync.ts).
use inventaire.Base.{
  String, Bool, true, false, ◌||◌, Option, none, some, [], ◌∷◌, ◌==◌, string_eq, ◌≡◌, ◌∙◌, refl,
  sym, ap, subst, arith, eq_of_beq, all, includes, nat_beq, nat_beq_iff, Outcome, ok, err,
  Option-cases, Bool-cases, inl, inr,
}
use inventaire.Couch.{memory_lookup}
use inventaire.Texts.Trimming.{trim_twice}
use inventaire.Entities.{ClaimValue, text, number}
use inventaire.Properties.{
  PropertyValueConstraints, PrimitiveType, Validation, Format, trimmed, without_spaces, lower_case,
  isbn_hyphenated, is_isbn,
}
use inventaire.Properties.Table.{Properties, properties_values_constraints}
use inventaire.Properties.Splits.{trim, remove_spaces, or_same}
use inventaire.Properties.Values.{
  Platform, format_value, format_text, validates, validate_text, hyphenated, parse_isbn,
}
use inventaire.Properties.Checks.{
  checked_value, validate_and_format_snak_value, validate_and_format_at, type_for,
  has_primitive_type, checked_inv,
}

-- The formats whose results the format leaves as they are, once they are valid
abbrev is_stable : Option Format → Validation → Bool
is_stable none validation = true
is_stable (some trimmed) validation = true
is_stable (some without_spaces) validation = true
is_stable (some lower_case) validation = true
is_stable (some (isbn_hyphenated num)) (is_isbn n) = nat_beq num n
is_stable _ validation = false

-- The identifiers of the BnF, Mastodon and Bluesky, that have a format of their own
abbrev pub has_own_format : String → Bool
has_own_format property = includes ("wdt:P268" ∷ "wdt:P4033" ∷ "wdt:P12361" ∷ []) property

abbrev is_stable_entry : String × PropertyValueConstraints → Bool
is_stable_entry e = has_own_format e.0 || is_stable e.1.format e.1.validate

all_stable : all is_stable_entry properties_values_constraints ≡ true
unfolding all properties_values_constraints includes
all_stable = refl

lookup-all :
    (p : String × PropertyValueConstraints → Bool) (entries : Properties) (key : String)
    (c : PropertyValueConstraints)
    → all p entries ≡ true
    → memory_lookup entries key ≡ some c
    → p (key, c) ≡ true
unfolding all
lookup-all p [] key c h k = absurd (ground arith)
lookup-all p ((j, d) ∷ rest) key c h k = elim (Bool-cases (j == key)) [
  | inl e ↦
      let first : p (j, d) ≡ true = ground arith in
      let found : some d ≡ some c = rw e at k in let same = eq_of_beq j key e in cc
  | inr e ↦ lookup-all p rest key c (ground arith) (ground arith)
]

remove_spaces_twice : (s : String) → remove_spaces (remove_spaces s) ≡ remove_spaces s
unfolding remove_spaces
remove_spaces_twice String.[] = refl
remove_spaces_twice (String.◌∷◌ c s) = ground (arith, remove_spaces_twice s)

idempotent :
    (f : String → String) (s t : String)
    → f (f s) ≡ f s
    → ◌≡◌ {A = Outcome String} (ok (f s)) (ok t)
    → ◌≡◌ {A = Outcome String} (ok (f t)) (ok t)
idempotent f s t twice e = cc

text_result :
    (r : Outcome String) (w : ClaimValue)
    → elim r as (λ _. Outcome ClaimValue) [ ok t ↦ ok (text t) | err e ↦ err e ] ≡ ok w
    → (t : String) × (r ≡ ok t) × (w ≡ text t)
text_result (ok t) w h = (t, refl, ground arith)
text_result (err e) w h = absurd (ground arith)

primitive_text :
    (primitive : PrimitiveType) (s t : String)
    → has_primitive_type primitive (text s) ≡ true
    → has_primitive_type primitive (text t) ≡ true
unfolding has_primitive_type
primitive_text PrimitiveType.string s t h = refl
primitive_text PrimitiveType.number s t h = h

same_isbn :
    (o : Option String) (t : String)
    → elim o as (λ _. Bool) [ none ↦ false | some isbn ↦ t == isbn ] ≡ true
    → or_same o t ≡ t
same_isbn none t h = refl
same_isbn (some isbn) t h = sym (eq_of_beq t isbn h)

module _ (platform : Platform)
    (lower : (s : String)
      → trim (platform.to_lower_case (trim (platform.to_lower_case s)))
        ≡ trim (platform.to_lower_case s)) where
  stable_text :
      (format : Format) (validation : Validation) (type : Option String) (s t : String)
      → is_stable (some format) validation ≡ true
      → format_text platform format s ≡ ok t
      → validate_text platform validation type t ≡ ok true
      → format_text platform format t ≡ ok t
  unfolding format_text validate_text trim
  stable_text trimmed validation type s t h e v = idempotent trim s t (trim_twice s) e
  stable_text without_spaces validation type s t h e v =
      idempotent remove_spaces s t (remove_spaces_twice s) e
  stable_text lower_case validation type s t h e v =
      idempotent (λ (u : String). trim (platform.to_lower_case u)) s t (lower s) e
  stable_text (isbn_hyphenated num) (is_isbn n) type s t h e v =
      let same = (nat_beq_iff num n).0 h in
      let own = same_isbn (hyphenated platform n (parse_isbn platform t)) t (ground arith) in
      rw same (ap ok own)
  stable_text _ validation type s t h e v = absurd (ground arith)

  unknown :
      (property : String) (v w : ClaimValue) (type : Option String)
      → memory_lookup properties_values_constraints property ≡ none
      → ¬ (validate_and_format_snak_value platform property v type ≡ ok w)
  unfolding validate_and_format_snak_value
  unknown property v w type e h = ground arith

  validated_text :
      (validation : Validation) (type : Option String) (t : String)
      → validates platform validation type (text t) ≡ ok true
      → validate_text platform validation type t ≡ ok true
  unfolding validates
  validated_text validation type t h = h

  stable_value :
      (format : Option Format) (validation : Validation) (primitive : PrimitiveType)
      (type : Option String) (v w : ClaimValue)
      → is_stable format validation ≡ true
      → has_primitive_type primitive v ≡ true
      → format_value platform format v ≡ ok w
      → validates platform validation type w ≡ ok true
      → (has_primitive_type primitive w ≡ true) × (format_value platform format w ≡ ok w)
  unfolding format_value
  stable_value none validation primitive type v w h p f k =
      let same : v ≡ w = ground arith in
      (subst (λ u. has_primitive_type primitive u ≡ true) same p, refl)
  stable_value (some format) validation primitive type (number n) w h p f k =
      let same : number n ≡ w = ground arith in
      subst
        (λ u.
          (has_primitive_type primitive u ≡ true) × (format_value platform (some format) u ≡ ok u))
        same (p, refl)
  stable_value (some format) validation primitive type (text s) w h p f k =
      let (t, e, same) = text_result (format_text platform format s) w f in
      let valid =
        validated_text validation type t
          (subst (λ u. validates platform validation type u ≡ ok true) same k) in
      let again = stable_text format validation type s t h e valid in
      subst
        (λ u.
          (has_primitive_type primitive u ≡ true) × (format_value platform (some format) u ≡ ok u))
        (sym same)
        (
          primitive_text primitive s t p,
          ap (λ r. elim r as (λ _. Outcome ClaimValue) [ ok t ↦ ok (text t) | err e ↦ err e ])
              again,
        )

  checked-eq-ok :
      (c : PropertyValueConstraints) (type : Option String) (w : ClaimValue)
      → has_primitive_type c.primitive_type w ≡ true
      → format_value platform c.format w ≡ ok w
      → validates platform c.validate (type_for c.type_specific_validation type) w ≡ ok true
      → checked_value platform c type w ≡ ok w
  unfolding checked_value
  checked-eq-ok c type w p f k = ground arith

  -- The value that the validation of a claim gives passes the same validation unchanged, for each property
  -- but those of the BnF, of Mastodon and of Bluesky, where trimming a text in lower case is stable under
  -- toLowerCase.
  pub validate_and_format_again :
      (property : String) (type : Option String) (v w : ClaimValue)
      → has_own_format property ≡ false
      → validate_and_format_snak_value platform property v type ≡ ok w
      → validate_and_format_snak_value platform property w type ≡ ok w
  validate_and_format_again property type v w own h =
      elim (Option-cases (memory_lookup properties_values_constraints property)) [
        | inl e ↦ absurd (unknown property v w type e h)
        | inr (c, e) ↦
            let entry =
              lookup-all is_stable_entry properties_values_constraints property c all_stable e in
            let steady : is_stable c.format c.validate ≡ true = ground arith in
            let (p, f, k) =
              checked_inv platform c type v w
                (sym (validate_and_format_at platform property v type c e) ∙ h) in
            let (p', f') =
              stable_value c.format c.validate c.primitive_type
                (type_for c.type_specific_validation type) v w steady p f k in
            validate_and_format_at platform property w type c e ∙ checked-eq-ok c type w p' f' k
      ]
