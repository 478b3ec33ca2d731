-- ===== src/Sanitization/Names.antt =====
-- Where the sanitization of a parameter writes, and what it leaves alone (server/lib/sanitize/sanitize.ts).
use inventaire.Base.{
  String, Bool, true, false, Option, none, some, List, [], ◌∷◌, ◌==◌, string_eq, ◌||◌, ◌≡◌, refl,
  arith, eq_iff, if◌then◌else◌, ok, bind_inv, ap, inl, inr, Option-cases, ◌∙◌,
}
use inventaire.Couch.{memory_lookup, memory_put, memory_lookup-put}
use inventaire.Entities.Objects.{omit, lookup-omit}
use inventaire.Sanitization.{
  Value, Input, ParameterConfig, Parameter, Configs, Sanitized, Setting, is_expected, value_of,
  remove_unexpected_parameter, remove_unexpected_parameters, expected_input, rename_parameter,
  formatted, with_default,
}
use inventaire.Sanitization.Chain.{
  set_parameter, store_value, accept_value, bounded, sanitize_known, sanitize_parameter,
  sanitize_parameters, get_parameter_functions,
}

module _ {Other : Type 0} where
  has_key : Input Other → String → Bool
  has_key [] k = false
  has_key ((j, _) ∷ input) k = j == k || has_key input k

  remove_unexpected_parameter-lookup :
      (configs : Configs Other) (j : String) (s : Sanitized Other) (k : String)
      → memory_lookup (remove_unexpected_parameter configs j s).input k ≡ (
          if is_expected configs k
          then memory_lookup s.input k
          else if j == k
          then none
          else memory_lookup s.input k)
  unfolding remove_unexpected_parameter
  remove_unexpected_parameter-lookup configs j s k =
      ground (arith, lookup-omit s.input j k, eq_iff j k)

  -- The loop removes the names of the input that are not expected, and changes no other.
  remove_unexpected_parameters-lookup :
      (configs : Configs Other) (names : Input Other) (s : Sanitized Other) (k : String)
      → memory_lookup (remove_unexpected_parameters configs names s).input k ≡ (
          if is_expected configs k
          then memory_lookup s.input k
          else if has_key names k
          then none
          else memory_lookup s.input k)
  unfolding remove_unexpected_parameters has_key
  remove_unexpected_parameters-lookup configs [] s k = ground arith
  remove_unexpected_parameters-lookup configs ((j, v) ∷ names) s k =
      let t = remove_unexpected_parameter configs j s in
      remove_unexpected_parameters-lookup configs names t k
      ∙ ground (arith, remove_unexpected_parameter-lookup configs j s k)

  has_key-false :
      (input : Input Other) (k : String) → has_key input k ≡ false → memory_lookup input k ≡ none
  unfolding has_key
  has_key-false [] k h = refl
  has_key-false ((j, v) ∷ input) k h = ground (arith, has_key-false input k)

  -- What is left of the input for the parameters to read
  pub expected_input-lookup :
      (configs : Configs Other) (raw : Input Other) (k : String)
      → memory_lookup (expected_input configs raw).input k
        ≡ (if is_expected configs k then memory_lookup (omit raw "action") k else none)
  unfolding expected_input
  expected_input-lookup configs raw k =
      let input = omit raw "action" in
      ground (
        arith,
        remove_unexpected_parameters-lookup configs input (record { input = input; warnings = [] })
            k,
        has_key-false input k,
      )

  abbrev pub alias_is :
      Option (String → ParameterConfig Other → String)
      → String
      → ParameterConfig Other
      → String
      → Bool
  alias_is none name config k = false
  alias_is (some rename) name config k = rename name config == k

  lookup-put_self :
      (input : Input Other) (name : String) (v : Value Other)
      → memory_lookup (memory_put input name v) name ≡ some v
  lookup-put_self input name v =
      ground (arith, memory_lookup-put input name name v, eq_iff name name)

  -- A value that is there is copied.
  rename_parameter-lookup :
      (rename : Option (String → ParameterConfig Other → String)) (name : String)
      (config : ParameterConfig Other) (v : Value Other) (input : Input Other) (k : String)
      → memory_lookup input name ≡ some v
      → memory_lookup (rename_parameter rename name config input) k
        ≡ (if alias_is rename name config k then some v else memory_lookup input k)
  unfolding rename_parameter value_of
  rename_parameter-lookup none name config v input k h = refl
  rename_parameter-lookup (some rename) name config v input k h =
      rw (h, memory_lookup-put input (rename name config) k v) refl

-- The names that a parameter is written at
module _ (setting : Setting) where
  open setting use {Other, camel_case, public_host}

  abbrev pub parameter_writes : Parameter Other → String → ParameterConfig Other → String → Bool
  parameter_writes parameter name config k =
      name == k || (camel_case name == k || alias_is parameter.rename name config k)

  unfoldable pub entry_writes : String → ParameterConfig Other → String → Bool
  entry_writes name config k = elim (get_parameter_functions setting name config) [
    | none ↦ false
    | some parameter ↦ parameter_writes parameter name config k
  ]

  unfoldable pub writes : List (String × ParameterConfig Other) → String → Bool
  unfolding entry_writes
  writes [] k = false
  writes ((name, config) ∷ rest) k = entry_writes name config k || writes rest k

  pub set_parameter-lookup :
      (parameter : Parameter Other) (name : String) (config : ParameterConfig Other)
      (v : Value Other) (input : Input Other) (k : String)
      → memory_lookup (set_parameter setting parameter name config v input) k
        ≡ (if parameter_writes parameter name config k then some v else memory_lookup input k)
  unfolding set_parameter
  set_parameter-lookup parameter name config v input k =
      let cased = λ (k : String) (_ : ParameterConfig Other). camel_case k in
      let written = memory_put input name v in
      let there = lookup-put_self input name v in
      ground (
        arith,
        rename_parameter-lookup parameter.rename name config v
            (rename_parameter (some cased) name config written) k,
        rename_parameter-lookup (some cased) name config v written name,
        rename_parameter-lookup (some cased) name config v written k,
        memory_lookup-put input name k v,
      )

  -- What sanitizeParameter stores for a value that it accepts
  pub accept_value-ok :
      (parameter : Parameter Other) (name : String) (config : ParameterConfig Other)
      (v : Value Other) (s t : Sanitized Other)
      → accept_value setting parameter name config v s ≡ ok t
      → (w : Value Other) × (parameter.validate w name config ≡ ok true)
        × (formatted parameter name config v ≡ ok w)
        × (t ≡ store_value setting parameter name config w s)
  unfolding accept_value
  accept_value-ok parameter name config v s t h =
      let (w, e, rest) = bind_inv (formatted parameter name config v) _ t h in
      let (valid, e', last) = bind_inv (parameter.validate w name config) _ t rest in
      let is_valid : valid ≡ true = ground arith in (w, e' ∙ ap ok is_valid, e, ground arith)

  accept_value-keeps :
      (parameter : Parameter Other) (name : String) (config : ParameterConfig Other)
      (v : Value Other) (s t : Sanitized Other) (k : String)
      → parameter_writes parameter name config k ≡ false
      → accept_value setting parameter name config v s ≡ ok t
      → memory_lookup t.input k ≡ memory_lookup s.input k
  unfolding store_value
  accept_value-keeps parameter name config v s t k u h =
      let (w, _, _, e) = accept_value-ok parameter name config v s t h in
      let (final, _) = bounded setting config parameter w name in
      let there = set_parameter-lookup parameter name config final s.input k in
      ap (λ (r : Sanitized Other). memory_lookup r.input k) e
      ∙ there
      ∙ ap (λ b. if b then some final else memory_lookup s.input k) u

  sanitize_known-keeps :
      (parameter : Parameter Other) (name : String) (config : ParameterConfig Other)
      (place : String) (s t : Sanitized Other) (k : String)
      → parameter_writes parameter name config k ≡ false
      → sanitize_known setting parameter name config place s ≡ ok t
      → memory_lookup t.input k ≡ memory_lookup s.input k
  unfolding sanitize_known
  sanitize_known-keeps parameter name config place s t k u h =
      let v = with_default config parameter (value_of s.input name) in
      ground (
        arith,
        lookup-omit s.input name k,
        memory_lookup-put s.input name k v,
        accept_value-keeps parameter name config v s t k,
      )

  sanitize_parameter-keeps :
      (name : String) (config : ParameterConfig Other) (place : String) (s t : Sanitized Other)
      (k : String)
      → entry_writes name config k ≡ false
      → sanitize_parameter setting name config place s ≡ ok t
      → memory_lookup t.input k ≡ memory_lookup s.input k
  unfolding sanitize_parameter entry_writes
  sanitize_parameter-keeps name config place s t k u h =
      elim (Option-cases (get_parameter_functions setting name config)) [
        | inl e ↦ absurd (ground arith)
        | inr (parameter, e) ↦
            ground (arith, sanitize_known-keeps parameter name config place s t k)
      ]

  -- A name that no parameter is written at keeps its value.
  pub sanitize_parameters-keeps :
      (es : List (String × ParameterConfig Other)) (place : String) (s t : Sanitized Other)
      (k : String)
      → writes es k ≡ false
      → sanitize_parameters setting es place s ≡ ok t
      → memory_lookup t.input k ≡ memory_lookup s.input k
  unfolding sanitize_parameters writes
  sanitize_parameters-keeps [] place s t k u h = ground arith
  sanitize_parameters-keeps ((name, config) ∷ es) place s t k u h =
      let (m, e, rest) = bind_inv (sanitize_parameter setting name config place s) _ t h in
      ground (
        arith,
        sanitize_parameters-keeps es place m t k,
        sanitize_parameter-keeps name config place s m k,
      )
