-- ===== src/Sanitization/Missing.antt =====
-- Requests that miss a required parameter (server/lib/sanitize/sanitize.ts).
use inventaire.Base.{String, true, false, none, some, List, ◌∷◌, ◌++◌, string_eq, ◌≡◌, arith, ok}
use inventaire.Entities.Objects.{lookup-omit}
use inventaire.Sanitization.{
  Input, ParameterConfig, Parameter, Configs, Sanitized, Request, Setting, nullish, value_of,
  value_or_undefined, with_default, default_value, value_or, expected_input, raw_input, get_place,
}
use inventaire.Sanitization.Chain.{sanitize_known, get_parameter_functions, sanitize}
use inventaire.Sanitization.Names.{writes, sanitize_parameters-keeps, expected_input-lookup}
use inventaire.Sanitization.Checks.{split_at}

module _ (setting : Setting) where
  open setting use {Other}

  sanitize_known-missing :
      (parameter : Parameter Other) (name : String) (config : ParameterConfig Other)
      (place : String) (s t : Sanitized Other)
      → parameter.drop ≡ false
      → config.optional ≡ false
      → config.can_be_null ≡ false
      → config.default ≡ none
      → parameter.default ≡ none
      → nullish (value_of s.input name) ≡ true
      → ¬ (sanitize_known setting parameter name config place s ≡ ok t)
  unfolding sanitize_known with_default default_value value_or
  sanitize_known-missing parameter name config place s t d o c n n' missing h = ground arith

  -- A parameter that is not dropped, not optional, may not be null and has no default makes a request
  -- fail that misses it, or has null for it, unless an earlier parameter is written at its name.
  sanitize-missing :
      (req : Request Other) (configs : Configs Other) (r : Sanitized Other)
      (before after : List (String × ParameterConfig Other)) (name : String)
      (config : ParameterConfig Other) (parameter : Parameter Other) (raw : Input Other)
      → configs.entries ≡ before ++ ((name, config) ∷ after)
      → get_parameter_functions setting name config ≡ some parameter
      → writes setting before name ≡ false
      → parameter.drop ≡ false
      → config.optional ≡ false
      → config.can_be_null ≡ false
      → config.default ≡ none
      → parameter.default ≡ none
      → raw_input req (get_place req.method configs) ≡ some raw
      → nullish (value_of raw name) ≡ true
      → ¬ (sanitize setting req configs ≡ ok r)
  unfolding value_of value_or_undefined nullish
  sanitize-missing req configs r before after name config parameter raw es known w d o c n n' there
        missing h =
      let (raw', m, one, t, there', first, accepted, rest, last) =
        split_at setting req configs r before after name config parameter es known h in
      let place = get_place req.method configs in
      let kept =
        sanitize_parameters-keeps setting before place (expected_input configs raw') m name w
          first in
      let start = expected_input-lookup configs raw' name in
      let omitted = lookup-omit raw' "action" name in
      let same : raw' ≡ raw = cc in
      let still : nullish (value_of m.input name) ≡ true = ground arith in
      sanitize_known-missing parameter name config place m one d o c n n' still accepted
