-- ===== src/Sanitization/Checks.antt =====
-- What the sanitization makes sure of for a configured parameter (server/lib/sanitize/sanitize.ts).
use inventaire.Base.{
  String, true, false, Option, none, some, List, [], ◌∷◌, ◌++◌, ◌==◌, string_eq, ◌||◌, ◌&&◌, ◌≡◌,
  subst, refl, arith, if◌then◌else◌, ok, bind_inv, ap, inl, inr, ◌⊎◌, ◌∙◌, beq_refl, Bool-cases,
}
use inventaire.Couch.{memory_lookup, memory_put, memory_lookup-put}
use inventaire.Entities.Objects.{lookup-omit}
use inventaire.Sanitization.{
  Value, undefined, null, natural, text, other, Input, ParameterConfig, Parameter, Configs,
  Sanitized, Request, Setting, nullish, is_null, value_of, value_or_undefined, with_default,
  default_value, value_or, expected_input, raw_input, get_place,
}
use inventaire.Sanitization.Chain.{
  bounded, store_value, accept_value, sanitize_known, sanitize_parameter, sanitize_parameters,
  get_parameter_functions, with_sender, sanitize,
}
use inventaire.Sanitization.Names.{
  writes, set_parameter-lookup, accept_value-ok, sanitize_parameters-keeps,
}
use inventaire.Sanitization.Identity.{sanitize-ok, with_sender-lookup}

nullish-undefined : (Other : Type 0) → nullish {Other = Other} undefined ≡ true
unfolding nullish
nullish-undefined Other = refl

module _ {Other : Type 0} where
  value_or-undefined :
      (d : Option (Value Other)) (v : Value Other) → value_or d v ≡ undefined → v ≡ undefined
  unfolding value_or
  value_or-undefined none v h = h
  value_or-undefined (some undefined) v h = h
  value_or-undefined (some d) v h = ground arith

  with_default-undefined :
      (config : ParameterConfig Other) (parameter : Parameter Other) (v : Value Other)
      → with_default config parameter v ≡ undefined
      → v ≡ undefined
  unfolding with_default default_value nullish
  with_default-undefined config parameter v h = ground (
    arith,
    value_or-undefined config.default (value_or parameter.default v),
    value_or-undefined parameter.default v,
  )

  -- A value that is still missing after the default is the one that the input then has.
  missing-lookup :
      (config : ParameterConfig Other) (parameter : Parameter Other) (input : Input Other)
      (name : String) (v : Value Other)
      → v ≡ with_default config parameter (value_of input name)
      → nullish v ≡ true
      → value_or_undefined (
          memory_lookup
            (if nullish (value_of input name) && is_null v then memory_put input name v else input)
            name)
        ≡ v
  unfolding value_of nullish is_null with_default
  missing-lookup config parameter input name v e n = ground (
    arith,
    memory_lookup-put input name name v,
    beq_refl name,
    with_default-undefined config parameter (value_of input name),
  )

  value_or-nullish :
      (d : Option (Value Other)) (v w : Value Other)
      → nullish (value_or d v) ≡ true
      → (nullish v ≡ true → nullish w ≡ true)
      → nullish (value_or d w) ≡ true
  unfolding value_or
  value_or-nullish none v w h k = k h
  value_or-nullish (some undefined) v w h k = k h
  value_or-nullish (some null) v w h k = h
  value_or-nullish (some (natural n)) v w h k = h
  value_or-nullish (some (text t)) v w h k = h
  value_or-nullish (some (other o)) v w h k = h

  no_default :
      (config : ParameterConfig Other) (parameter : Parameter Other) (v : Value Other)
      → nullish (with_default config parameter v) ≡ true
      → nullish (default_value config parameter undefined) ≡ true
  unfolding with_default default_value
  no_default config parameter v h =
      let of_parameter = value_or parameter.default v in
      let stays : nullish (value_or config.default of_parameter) ≡ true = ground arith in
      value_or-nullish config.default of_parameter (value_or parameter.default undefined) stays
        λ m. value_or-nullish parameter.default v undefined m λ _. nullish-undefined Other

module _ (setting : Setting) where
  open setting use {Other, camel_case}

  -- `found` is what a parameter may be in an accepted input: nothing if it is dropped, and else
  -- nothing or null, where it has no other default and is optional or may be null, or a value that the validation admits, put
  -- within the bounds.
  abbrev pub IsChecked :
      Parameter Other → String → ParameterConfig Other → Option (Value Other) → Type 0
  IsChecked parameter name config found =
      ((parameter.drop ≡ true) × (found ≡ none))
      ⊎ (((nullish (value_or_undefined found) ≡ true)
            × (nullish (default_value config parameter undefined) ≡ true)
            × ((config.can_be_null && is_null (value_or_undefined found) || config.optional)
                ≡ true))
          ⊎ ((w : Value Other) × (parameter.validate w name config ≡ ok true)
              × (found ≡ some (bounded setting config parameter w name).0)))

  accept_value-IsChecked :
      (parameter : Parameter Other) (name : String) (config : ParameterConfig Other)
      (v : Value Other) (s t : Sanitized Other)
      → accept_value setting parameter name config v s ≡ ok t
      → IsChecked parameter name config (memory_lookup t.input name)
  unfolding store_value
  accept_value-IsChecked parameter name config v s t h =
      let (w, valid, _, e) = accept_value-ok setting parameter name config v s t h in
      let (final, _) = bounded setting config parameter w name in
      let there = set_parameter-lookup setting parameter name config final s.input name in
      let self = beq_refl name in inr (inr (w, valid, ground arith))

  sanitize_known-IsChecked :
      (parameter : Parameter Other) (name : String) (config : ParameterConfig Other)
      (place : String) (s t : Sanitized Other)
      → sanitize_known setting parameter name config place s ≡ ok t
      → IsChecked parameter name config (memory_lookup t.input name)
  unfolding sanitize_known
  sanitize_known-IsChecked parameter name config place s t h =
      let v = with_default config parameter (value_of s.input name) in
      elim (Bool-cases parameter.drop) [
        | inl d ↦ inl (d, ground (arith, lookup-omit s.input name name, beq_refl name))
        | inr d ↦ elim (Bool-cases (nullish v)) [
          | inl n ↦
              let stored : t.input ≡ (
                  if nullish (value_of s.input name) && is_null v
                  then memory_put s.input name v
                  else s.input) =
                ground arith in
              let allowed : (config.can_be_null && is_null v || config.optional) ≡ true =
                ground arith in
              let there =
                ap (λ input. value_or_undefined (memory_lookup input name)) stored
                ∙ missing-lookup config parameter s.input name v refl n in
              inr (
                inl (
                  ap nullish there ∙ n,
                  no_default config parameter (value_of s.input name) n,
                  ap (λ w. config.can_be_null && is_null w || config.optional) there ∙ allowed,
                ))
          | inr n ↦ accept_value-IsChecked parameter name config v s t (ground arith)
        ]
      ]

  sanitize_parameters-append :
      (before after : List (String × ParameterConfig Other)) (place : String)
      (s t : Sanitized Other)
      → sanitize_parameters setting (before ++ after) place s ≡ ok t
      → (m : Sanitized Other) × (sanitize_parameters setting before place s ≡ ok m)
        × (sanitize_parameters setting after place m ≡ ok t)
  unfolding sanitize_parameters
  sanitize_parameters-append [] after place s t h = (s, refl, h)
  sanitize_parameters-append ((name, config) ∷ before) after place s t h =
      let (m, e, rest) = bind_inv (sanitize_parameter setting name config place s) _ t h in
      let (m', e', rest') = sanitize_parameters-append before after place m t rest in
      (m', ground arith, rest')

  -- The steps of the parameters that stand before and after one of them
  pub split_at :
      (req : Request Other) (configs : Configs Other) (r : Sanitized Other)
      (before after : List (String × ParameterConfig Other)) (name : String)
      (config : ParameterConfig Other) (parameter : Parameter Other)
      → configs.entries ≡ before ++ ((name, config) ∷ after)
      → get_parameter_functions setting name config ≡ some parameter
      → sanitize setting req configs ≡ ok r
      → (raw : Input Other) × (m n t : Sanitized Other) × (raw_input req
            (get_place req.method configs)
          ≡ some raw)
        × (sanitize_parameters setting before
              (get_place req.method configs)
              (expected_input configs raw)
            ≡ ok m)
        × (sanitize_known setting parameter name config (get_place req.method configs) m ≡ ok n)
        × (sanitize_parameters setting after (get_place req.method configs) n ≡ ok t)
        × (r.input ≡ with_sender setting req.sender t.input)
  unfolding sanitize_parameters sanitize_parameter
  split_at req configs r before after name config parameter es known h =
      let (raw, t, there, steps, last) = sanitize-ok setting req configs r h in
      let place = get_place req.method configs in
      let start = expected_input configs raw in
      let (m, first, rest) =
        sanitize_parameters-append before ((name, config) ∷ after) place start t
          (rw (← es) steps) in
      let (n, one, rest') = bind_inv (sanitize_parameter setting name config place m) _ t rest in
      (raw, m, n, t, there, first, ground arith, rest', last)

  -- In an accepted input, a configured parameter at whose name no later parameter is written, and
  -- which is not named reqUserId or reqUserAcct, is absent if it is dropped; else it is missing or
  -- null, it has no default but null and the configuration lets it be so, or it is a value that the validation admits, put
  -- within the bounds.
  pub sanitize-IsChecked :
      (req : Request Other) (configs : Configs Other) (r : Sanitized Other)
      (before after : List (String × ParameterConfig Other)) (name : String)
      (config : ParameterConfig Other) (parameter : Parameter Other)
      → configs.entries ≡ before ++ ((name, config) ∷ after)
      → get_parameter_functions setting name config ≡ some parameter
      → writes setting after name ≡ false
      → ("reqUserId" == name) ≡ false
      → ("reqUserAcct" == name) ≡ false
      → sanitize setting req configs ≡ ok r
      → IsChecked parameter name config (memory_lookup r.input name)
  sanitize-IsChecked req configs r before after name config parameter es known w i a h =
      let (raw, m, n, t, there, first, one, rest, last) =
        split_at req configs r before after name config parameter es known h in
      let place = get_place req.method configs in
      let kept = sanitize_parameters-keeps setting after place n t name w rest in
      let signed = with_sender-lookup setting req.sender t.input name in
      let same : memory_lookup n.input name ≡ memory_lookup r.input name = ground arith in
      subst (IsChecked parameter name config) same
        (sanitize_known-IsChecked parameter name config place m n one)
