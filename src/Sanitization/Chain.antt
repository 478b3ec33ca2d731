-- ===== src/Sanitization/Chain.antt =====
-- The chain from a request to the input of a controller (server/lib/sanitize/sanitize.ts).
use inventaire.Base.{
  ℕ, String, Bool, false, Option, none, some, List, [], ◌∷◌, ◌++◌, string_eq, ltb, ◌&&◌, ◌||◌,
  if◌then◌else◌, Outcome, ok, err, Failure, http, failed, ◌>>=◌,
}
use Prim.Native.String.{◌++◌ as ◌⧺◌}
use inventaire.Couch.{memory_put}
use inventaire.Entities.Objects.{omit}
use inventaire.Sanitization.{
  Value, undefined, null, natural, text, other, Input, ParameterConfig, Parameter, Configs, Warning,
  under, over, Sanitized, Sender, user, remote_user, anonymous, Request, Setting, nullish, is_null,
  value_of, expected_input, get_place, raw_input, with_default, rename_parameter, formatted,
  boundary, unprefixed, local_user_acct,
}

module _ (setting : Setting) where
  open setting use {
    Other, text_below, text_above, other_below, other_above, shown, camel_case, public_host,
    sanitization_parameters, generics,
  }

  -- `value < n` and `value > n`; `null` is 0 and `undefined` no number.
  unfoldable pub below : Value Other → ℕ → Bool
  below undefined n = false
  below null n = ltb 0 n
  below (natural m) n = ltb m n
  below (text t) n = text_below t n
  below (other o) n = other_below o n

  unfoldable pub above : Value Other → ℕ → Bool
  above undefined n = false
  above null n = false
  above (natural m) n = ltb n m
  above (text t) n = text_above t n
  above (other o) n = other_above o n

  -- getParameterFunctions
  unfoldable pub get_parameter_functions : String → ParameterConfig Other → Option (Parameter Other)
  get_parameter_functions name config = elim config.generic [
    | some generic ↦ generics generic
    | none ↦ sanitization_parameters (unprefixed name)
  ]

  unfoldable pub over_maximum : Option ℕ → Value Other → String → Value Other × List Warning
  unfolding above
  over_maximum none v name = (v, [])
  over_maximum (some n) v name = if above v n then (natural n, over name n ∷ []) else (v, [])

  -- enforceBoundaries
  unfoldable pub bounded :
      ParameterConfig Other → Parameter Other → Value Other → String → Value Other × List Warning
  unfolding below over_maximum boundary
  bounded config parameter v name =
      let rest = over_maximum (boundary config.max parameter.max) v name in
      elim (boundary config.min parameter.min) [
        | some n ↦ if below v n then (natural n, under name n ∷ []) else rest
        | none ↦ rest
      ]

  -- The value is set, then copied to the camel-cased name and to the name that the parameter gives.
  unfoldable pub set_parameter :
      Parameter Other → String → ParameterConfig Other → Value Other → Input Other → Input Other
  set_parameter parameter name config v input =
      let written = memory_put input name v in
      let cased = rename_parameter (some (λ k _. camel_case k)) name config written in
      rename_parameter parameter.rename name config cased

  -- The parameter with a value that is valid
  unfoldable pub store_value :
      Parameter Other
      → String
      → ParameterConfig Other
      → Value Other
      → Sanitized Other
      → Sanitized Other
  store_value parameter name config w s =
      let (final, warned) = bounded config parameter w name in
      record {
        input = set_parameter parameter name config final s.input;
        warnings = s.warnings ++ warned;
      }

  -- newInvalidError
  unfoldable pub invalid_error : String → Value Other → Failure
  invalid_error name w = http (("invalid " ⧺ name) ⧺ (": " ⧺ shown w)) 400

  -- The part of sanitizeParameter from the format on, for a value that is there
  unfoldable pub accept_value :
      Parameter Other
      → String
      → ParameterConfig Other
      → Value Other
      → Sanitized Other
      → Outcome (Sanitized Other)
  accept_value parameter name config v s = do
    w ← formatted parameter name config v
    valid ← parameter.validate w name config
    if valid then ok (store_value parameter name config w s) else err (invalid_error name w)

  -- A default is written also where it is null.
  unfoldable pub sanitize_known :
      Parameter Other
      → String
      → ParameterConfig Other
      → String
      → Sanitized Other
      → Outcome (Sanitized Other)
  sanitize_known parameter name config place s =
      let v = with_default config parameter (value_of s.input name) in
      let written =
        if nullish (value_of s.input name) && is_null v
        then record s { input = memory_put s.input name v }
        else s in
      if parameter.drop
      then ok (record s { input = omit s.input name })
      else if nullish v
      then if config.can_be_null && is_null v || config.optional
        then ok written
        else err (http (("missing parameter in " ⧺ place) ⧺ (": " ⧺ name)) 400)
      else accept_value parameter name config v s

  -- A parameter that is in no table has no `drop` to be read.
  unfoldable pub sanitize_parameter :
      String → ParameterConfig Other → String → Sanitized Other → Outcome (Sanitized Other)
  sanitize_parameter name config place s = elim (get_parameter_functions name config) [
    | none ↦ err failed
    | some parameter ↦ sanitize_known parameter name config place s
  ]

  -- `for (const name in configs)`
  unfoldable pub sanitize_parameters :
      List (String × ParameterConfig Other) → String → Sanitized Other → Outcome (Sanitized Other)
  sanitize_parameters [] place s = ok s
  sanitize_parameters ((name, config) ∷ rest) place s =
      sanitize_parameter name config place s >>= λ t. sanitize_parameters rest place t

  unfoldable pub with_sender : Sender → Input Other → Input Other
  unfolding local_user_acct
  with_sender (user id anonymizable_id) input =
      memory_put (memory_put input "reqUserId" (text id)) "reqUserAcct"
        (text (local_user_acct public_host anonymizable_id))
  with_sender (remote_user acct) input = memory_put input "reqUserAcct" (text acct)
  with_sender anonymous input = input

  unfoldable pub sanitize_input :
      Configs Other → String → Sender → Input Other → Outcome (Sanitized Other)
  sanitize_input configs place sender raw = do
    t ← sanitize_parameters configs.entries place (expected_input configs raw)
    ok (record t { input = with_sender sender t.input })

  -- sanitize. The type of an input that is no object is left out of the message.
  unfoldable pub sanitize : Request Other → Configs Other → Outcome (Sanitized Other)
  sanitize req configs =
      let place = get_place req.method configs in
      elim (raw_input req place) [
        | none ↦ err (http (place ⧺ " should be an object") 400)
        | some raw ↦ sanitize_input configs place req.sender raw
      ]

  -- validateSanitization, which runs when the endpoints are declared
  unfoldable pub validate_sanitization : List (String × ParameterConfig Other) → Outcome (Unit {0})
  unfolding get_parameter_functions
  validate_sanitization [] = ok tt
  validate_sanitization ((name, config) ∷ rest) =
      let others = validate_sanitization rest in
      elim (get_parameter_functions name config) [
        | some _ ↦ others
        | none ↦ elim config.generic [
          | some _ ↦ err (http "invalid generic name" 500)
          | none ↦ err (http "invalid parameter name" 500)
        ]
      ]
