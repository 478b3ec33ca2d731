-- ===== src/Sanitization/Bounds.antt =====
-- The size of the pages that a request may ask for (limit of server/lib/sanitize/parameters.ts).
use inventaire.Base.{
  ℕ, String, false, Option, none, some, List, ◌∷◌, ◌++◌, string_eq, ◌≡◌, ◌≤◌, refl, arith, ok, inl,
  inr, ◌⊎◌, nat_beq, Bool-cases, ltb, if◌then◌else◌, ap, ◌∙◌,
}
use inventaire.Couch.{memory_lookup}
use inventaire.Sanitization.{
  Value, natural, undefined, ParameterConfig, Parameter, Configs, Sanitized, Request, Setting,
  nullish, default_value, boundary, unprefixed, strip_prefix,
}
use inventaire.Sanitization.Chain.{
  bounded, over_maximum, below, above, sanitize, get_parameter_functions,
}
use inventaire.Sanitization.Names.{writes}
use inventaire.Sanitization.Parameters.{Formats, limit, is_natural}
use inventaire.Sanitization.Checks.{IsChecked, sanitize-IsChecked}

-- The bound of a configuration, where 0 is none
abbrev pub AtMost : Option ℕ → ℕ → Type 0
AtMost none n = Unit {0}
AtMost (some m) n = (m ≡ 0) ⊎ (n ≤ m)

abbrev pub IsLimit : {Other : Type 0} → Option ℕ → Option (Value Other) → Type 0
IsLimit {Other} max found = (n : ℕ) × (found ≡ some (natural n)) × (1 ≤ n) × AtMost max n

-- The bounds of the limit, on a number
capped : Option ℕ → ℕ → ℕ
capped none k = k
capped (some m) k = if nat_beq m 0 then k else if ltb m k then m else k

limited : Option ℕ → ℕ → ℕ
unfolding capped
limited max k = if ltb k 1 then 1 else capped max k

limited-AtMost : (max : Option ℕ) (k : ℕ) → (1 ≤ limited max k) × AtMost max (limited max k)
unfolding limited
limited-AtMost none k = (ground arith, tt)
limited-AtMost (some m) k = elim (Bool-cases (nat_beq m 0)) [
  | inl e ↦ (ground arith, inl (ground arith))
  | inr e ↦ (ground arith, inr (ground arith))
]

module _ (setting : Setting) where
  open setting use {Other, sanitization_parameters}

  over_maximum-capped :
      (max : Option ℕ) (k : ℕ)
      → (over_maximum setting (boundary max none) (natural k) "limit").0 ≡ natural (capped max k)
  unfolding over_maximum boundary capped above
  over_maximum-capped none k = refl
  over_maximum-capped (some m) k = ground arith

  bounded-limited :
      (formats : Formats Other) (config : ParameterConfig Other) (k : ℕ)
      → config.min ≡ none
      → (bounded setting config (limit formats) (natural k) "limit").0
        ≡ natural (limited config.max k)
  unfolding bounded limit limited boundary below
  bounded-limited formats config k no_min = ground (arith, over_maximum-capped config.max k)

  functions :
      (config : ParameterConfig Other) (parameter : Parameter Other)
      → config.generic ≡ none
      → sanitization_parameters "limit" ≡ some parameter
      → get_parameter_functions setting "limit" config ≡ some parameter
  unfolding get_parameter_functions unprefixed strip_prefix
  functions config parameter g table = ground arith

  IsChecked-IsLimit :
      (formats : Formats Other) (config : ParameterConfig Other) (found : Option (Value Other))
      → config.min ≡ none
      → nullish (default_value config (limit formats) undefined) ≡ false
      → IsChecked setting (limit formats) "limit" config found
      → IsLimit config.max found
  unfolding limit is_natural
  IsChecked-IsLimit formats config found no_min default (inl (dropped, _)) = cc
  IsChecked-IsLimit formats config found no_min default (inr (inl (_, no_default, _))) = cc
  IsChecked-IsLimit formats config found no_min default (inr (inr (natural k, _, e))) =
      let (least, most) = limited-AtMost config.max k in
      (limited config.max k, e ∙ ap some (bounded-limited formats config k no_min), least, most)
  IsChecked-IsLimit formats config found no_min default (inr (inr (w, valid, _))) =
      absurd (ground arith)

  -- In an accepted input whose configuration has the parameter `limit`, with a default that is not
  -- null and no lower bound of its own, and where no later parameter is written at its name, the limit
  -- is an integer from 1 on, and at most the upper bound of the configuration if this has one other
  -- than 0.
  pub sanitize-IsLimit :
      (formats : Formats Other) (req : Request Other) (configs : Configs Other)
      (r : Sanitized Other) (before after : List (String × ParameterConfig Other))
      (config : ParameterConfig Other)
      → sanitization_parameters "limit" ≡ some (limit formats)
      → configs.entries ≡ before ++ (("limit", config) ∷ after)
      → config.generic ≡ none
      → config.min ≡ none
      → nullish (default_value config (limit formats) undefined) ≡ false
      → writes setting after "limit" ≡ false
      → sanitize setting req configs ≡ ok r
      → IsLimit config.max (memory_lookup r.input "limit")
  sanitize-IsLimit formats req configs r before after config table es g no_min default w h =
      IsChecked-IsLimit formats config (memory_lookup r.input "limit") no_min default (
        sanitize-IsChecked setting req configs r before after "limit" config (limit formats) es
          (functions config (limit formats) g table) w refl refl h)
