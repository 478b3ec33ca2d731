-- ===== src/Sanitization.antt =====
-- The input of the controllers (server/lib/sanitize/sanitize.ts): its values, the configurations of
-- parameters, and the steps that do not depend on the tables.
mod Parameters
mod Chain
mod Names
mod Identity
mod Checks
mod Missing
mod Bounds
mod Tests
use inventaire.Base.{
  ℕ, String, Bool, true, false, Option, none, some, List, [], ◌∷◌, ◌++◌, ◌==◌, string_eq, nat_beq,
  ltb, ◌&&◌, ◌||◌, not, includes, if◌then◌else◌, Outcome, ok, err, Failure, http, failed, ◌>>=◌,
}
use Prim.Native.Char.{code}
use Prim.Native.String.{◌++◌ as ◌⧺◌}
use inventaire.Couch.{memory_lookup, memory_put}
use inventaire.Entities.Objects.{omit}

-- A value of the input. `natural` is a number that is an integer from 0 on; `other` is any other
-- number, a boolean, an array or an object.
pub data Value (Other : Type 0) : Type 0 where
  undefined null : Value Other
  natural : ℕ → Value Other
  text : String → Value Other
  other : Other → Value Other

-- An object, by its own entries
abbrev pub Input : Type 0 → Type 0
Input Other = List (String × Value Other)

-- ControllerSanitizationParameterConfig, with the attributes that this model reads. A default
-- of `none` is one that is not there.
pub record ParameterConfig (Other : Type 0) : Type 0 where
  pub generic : Option String
  pub optional : Bool
  pub can_be_null : Bool
  pub default : Option (Value Other)
  pub min : Option ℕ
  pub max : Option ℕ
  pub text_length : Option ℕ
  pub allowlist : List String
  pub type : Option String

-- SanitizationParameter
pub record Parameter (Other : Type 0) : Type 0 where
  pub drop : Bool
  pub default : Option (Value Other)
  pub min : Option ℕ
  pub max : Option ℕ
  pub format : Option (Value Other → String → ParameterConfig Other → Outcome (Value Other))
  pub validate : Value Other → String → ParameterConfig Other → Outcome Bool
  pub rename : Option (String → ParameterConfig Other → String)

-- ControllerInputSanitization, with its option apart from the parameters
pub record Configs (Other : Type 0) : Type 0 where
  pub entries : List (String × ParameterConfig Other)
  pub non_json_body : Bool

-- A warning of the response
pub data Warning : Type 0 where
  unexpected : String → Warning
  under over : String → ℕ → Warning

pub record Sanitized (Other : Type 0) : Type 0 where
  pub input : Input Other
  pub warnings : List Warning

-- Who sends a request: `req.user` by its id and its anonymizableId, `req.remoteUser` by its account
pub data Sender : Type 0 where
  user : String → String → Sender
  remote_user : String → Sender
  anonymous : Sender

-- A body that is no plain object is `none`; a query always is one.
pub record Request (Other : Type 0) : Type 0 where
  pub method : String
  pub query : Input Other
  pub body : Option (Input Other)
  pub sender : Sender

-- What JavaScript and lodash do: the comparison of a text or another value with a number, a value in
-- a text, and camelCase. `public_host` is configured; the tables are those of parameters.ts.
pub record Setting : Type 1 where
  pub Other : Type 0
  pub text_below : String → ℕ → Bool
  pub text_above : String → ℕ → Bool
  pub other_below : Other → ℕ → Bool
  pub other_above : Other → ℕ → Bool
  pub shown : Value Other → String
  pub camel_case : String → String
  pub public_host : String
  pub sanitization_parameters : String → Option (Parameter Other)
  pub generics : String → Option (Parameter Other)

-- The names that each object has from Object.prototype
abbrev pub prototype_names : List String
prototype_names =
    "constructor" ∷ "toString" ∷ "toLocaleString" ∷ "valueOf" ∷ "hasOwnProperty" ∷ "isPrototypeOf"
    ∷ "propertyIsEnumerable" ∷ "__proto__" ∷ "__defineGetter__" ∷ "__defineSetter__"
    ∷ "__lookupGetter__" ∷ "__lookupSetter__" ∷ []

-- `('min' in config && config.min) || ('min' in parameter && parameter.min)`: a 0 of the config gives
-- way to the bound of the parameter.
unfoldable pub boundary : Option ℕ → Option ℕ → Option ℕ
boundary none of_parameter = of_parameter
boundary (some n) of_parameter = if nat_beq n 0 then of_parameter else some n

module _ {Other : Type 0} where
  unfoldable pub nullish : Value Other → Bool
  nullish undefined = true
  nullish null = true
  nullish _ = false

  unfoldable pub is_null : Value Other → Bool
  is_null null = true
  is_null _ = false

  unfoldable pub value_or_undefined : Option (Value Other) → Value Other
  value_or_undefined none = undefined
  value_or_undefined (some v) = v

  -- `input[name]`, for a name that is not of Object.prototype
  unfoldable pub value_of : Input Other → String → Value Other
  unfolding value_or_undefined
  value_of input name = value_or_undefined (memory_lookup input name)

  unfoldable pub has_config : List (String × ParameterConfig Other) → String → Bool
  has_config [] name = false
  has_config ((k, _) ∷ es) name = k == name || has_config es name

  -- `configs[name] != null`
  unfoldable pub is_expected : Configs Other → String → Bool
  unfolding has_config includes
  is_expected configs name =
      has_config configs.entries name
      || (configs.non_json_body && "nonJsonBody" == name || includes prototype_names name)

  unfoldable pub remove_unexpected_parameter :
      Configs Other → String → Sanitized Other → Sanitized Other
  remove_unexpected_parameter configs name s =
      if is_expected configs name
      then s
      else record s { input = omit s.input name; warnings = s.warnings ++ (unexpected name ∷ []) }

  -- `for (const name in input)`
  unfoldable pub remove_unexpected_parameters :
      Configs Other → Input Other → Sanitized Other → Sanitized Other
  remove_unexpected_parameters configs [] s = s
  remove_unexpected_parameters configs ((name, _) ∷ rest) s =
      remove_unexpected_parameters configs rest (remove_unexpected_parameter configs name s)

  -- The input without `action` and what is not expected
  unfoldable pub expected_input : Configs Other → Input Other → Sanitized Other
  expected_input configs raw =
      let input = omit raw "action" in
      remove_unexpected_parameters configs input (record { input = input; warnings = [] })

  -- The place of the input and what is there
  unfoldable pub get_place : String → Configs Other → String
  get_place method configs =
      if (method == "POST" || method == "PUT") && not configs.non_json_body then "body" else "query"

  unfoldable pub raw_input : Request Other → String → Option (Input Other)
  raw_input req place = if place == "body" then req.body else some req.query

  -- `default !== undefined`
  unfoldable pub value_or : Option (Value Other) → Value Other → Value Other
  value_or none v = v
  value_or (some undefined) v = v
  value_or (some d) v = d

  -- applyDefaultValue, as the value that the parameter then has
  unfoldable pub default_value : ParameterConfig Other → Parameter Other → Value Other → Value Other
  default_value config parameter v = value_or config.default (value_or parameter.default v)

  unfoldable pub with_default : ParameterConfig Other → Parameter Other → Value Other → Value Other
  with_default config parameter v = if nullish v then default_value config parameter v else v

  -- renameParameter
  unfoldable pub rename_parameter :
      Option (String → ParameterConfig Other → String)
      → String
      → ParameterConfig Other
      → Input Other
      → Input Other
  unfolding value_of
  rename_parameter none name config input = input
  rename_parameter (some rename) name config input =
      memory_put input (rename name config) (value_of input name)

  -- format: what the function throws is the cause of an error 500.
  unfoldable pub formatted :
      Parameter Other → String → ParameterConfig Other → Value Other → Outcome (Value Other)
  formatted parameter name config v = elim parameter.format [
    | none ↦ ok v
    | some f ↦ elim (f v name config) [
      | ok formatted_value ↦ ok formatted_value
      | err _ ↦ err (http "could not format input" 500)
    ]
  ]

-- getLocalUserAcct
unfoldable pub local_user_acct : String → String → String
local_user_acct public_host anonymizable_id = (anonymizable_id ⧺ "@") ⧺ public_host

-- The name without the prefix, if it has it
unfoldable pub strip_prefix : String → String → Option String
strip_prefix String.[] name = some name
strip_prefix (String.◌∷◌ c p) String.[] = none
strip_prefix (String.◌∷◌ c p) (String.◌∷◌ d name) =
    let rest = strip_prefix p name in if nat_beq (code c) (code d) then rest else none

-- `name.replace(/^(old|new|current)-/, '')`
unfoldable pub unprefixed : String → String
unfolding strip_prefix
unprefixed name = elim (strip_prefix "old-" name) [
  | some rest ↦ rest
  | none ↦ elim (strip_prefix "new-" name) [
    | some rest ↦ rest
    | none ↦ elim (strip_prefix "current-" name) [ some rest ↦ rest | none ↦ name ]
  ]
]
