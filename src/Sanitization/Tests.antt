-- ===== src/Sanitization/Tests.antt =====
-- Runs of the sanitization, and its theorems at concrete requests.
use inventaire.Base.{
  String, Bool, true, false, Option, none, some, [], ◌∷◌, ◌==◌, string_eq, ◌≡◌, refl, if◌then◌else◌,
  ok, err, http,
}
use inventaire.Couch.{memory_lookup}
use inventaire.Entities.Objects.{omit}
use inventaire.Validation.{is_couch_uuid}
use inventaire.Sanitization.{
  Value, natural, null, undefined, text, Input, ParameterConfig, Parameter, Configs, Sanitized,
  Sender, Request, Setting, Warning, nullish, is_null, value_of, value_or_undefined, is_expected,
  remove_unexpected_parameter, remove_unexpected_parameters, expected_input, value_or,
  default_value, with_default, formatted, rename_parameter, get_place, raw_input, unprefixed,
}
use inventaire.Sanitization.Chain.{
  bounded, set_parameter, store_value, accept_value, sanitize_known, sanitize_parameter,
  sanitize_parameters, with_sender, sanitize_input, sanitize, validate_sanitization,
  get_parameter_functions,
}
use inventaire.Sanitization.Parameters.{
  Formats, limit, user_parameter, non_empty_string, ignore, is_acct_type,
}
use inventaire.Sanitization.Names.{writes}
use inventaire.Sanitization.Identity.{sanitize-unwritten, sanitize-identity, sender_id, sender_acct}
use inventaire.Sanitization.Checks.{sanitize-IsChecked, IsChecked}
use inventaire.Sanitization.Bounds.{sanitize-IsLimit, IsLimit}

abbrev number_in : Value Bool → Option (Value Bool)
number_in (text t) = if t == "500" then some (natural 500) else none
number_in _ = none

abbrev formats : Formats Bool
formats = record {
  other_type = λ _. "boolean";
  is_number = λ _. false;
  parse_float = number_in;
  normalize_string = λ s. s;
  url_host = λ host. some host;
  public_host = "inventaire.io";
}

abbrev table : String → Option (Parameter Bool)
table name =
    if name == "limit"
    then some (limit formats)
    else if name == "user"
    then some (user_parameter formats)
    else if name == "name"
    then some (non_empty_string formats)
    else none

abbrev setting : Setting
setting = record {
  Other = Bool;
  text_below = λ _ _. false;
  text_above = λ _ _. false;
  other_below = λ _ _. false;
  other_above = λ _ _. false;
  shown = λ _. "";
  camel_case = λ name. if name == "new-name" then "newName" else name;
  public_host = "inventaire.io";
  sanitization_parameters = table;
  generics = λ generic. if generic == "ignore" then some ignore else none;
}

abbrev required : ParameterConfig Bool
required = record {
  generic = none;
  optional = false;
  can_be_null = false;
  default = none;
  min = none;
  max = none;
  text_length = none;
  allowlist = [];
  type = none;
}

abbrev up_to_100 : ParameterConfig Bool
up_to_100 = record required { max = some 100 }

abbrev user_id : String
user_id = "0123456789abcdef0123456789abcdef"

-- The parameters of an endpoint, and a request that has more than them
abbrev configs : Configs Bool
configs = record { entries = ("limit", up_to_100) ∷ ("user", required) ∷ []; non_json_body = false }

abbrev query : Input Bool
query =
    ("action", text "by-user")
    ∷ ("limit", text "500")
    ∷ ("reqUserId", text "forged")
    ∷ ("user", text user_id)
    ∷ ("constructor", text "kept")
    ∷ []

abbrev request : Request Bool
request = record {
  method = "GET";
  query = query;
  body = none;
  sender = Sender.user "the user" "anon";
}

abbrev result : Sanitized Bool
result = record {
  input =
      ("limit", natural 100)
      ∷ ("user", text user_id)
      ∷ ("constructor", text "kept")
      ∷ ("userId", text user_id)
      ∷ ("reqUserId", text "the user")
      ∷ ("reqUserAcct", text "anon@inventaire.io")
      ∷ [];
  warnings = Warning.unexpected "reqUserId" ∷ Warning.over "limit" 100 ∷ [];
}

accepted : sanitize setting request configs ≡ ok result
unfolding sanitize sanitize_input get_place raw_input expected_input remove_unexpected_parameters
    remove_unexpected_parameter is_expected omit sanitize_parameters sanitize_parameter
    sanitize_known accept_value store_value with_default default_value value_or nullish is_null
    value_of value_or_undefined bounded set_parameter rename_parameter with_sender
    get_parameter_functions unprefixed limit user_parameter formatted is_couch_uuid
accepted = refl

sanitize-unwritten_example :
    memory_lookup result.input "constructor"
    ≡ (if is_expected configs "constructor" then some (text "kept") else none)
unfolding writes get_place raw_input get_parameter_functions unprefixed limit user_parameter
sanitize-unwritten_example =
    sanitize-unwritten setting request configs result query "constructor" accepted refl refl refl
      refl

sanitize-identity_example :
    (memory_lookup result.input "reqUserId" ≡ sender_id setting request.sender)
    × (memory_lookup result.input "reqUserAcct" ≡ sender_acct setting request.sender)
unfolding writes is_expected get_parameter_functions unprefixed limit user_parameter is_acct_type
sanitize-identity_example =
    sanitize-identity setting request configs result accepted refl refl refl refl

sanitize-IsChecked_example :
    IsChecked setting (user_parameter formats) "user" required (memory_lookup result.input "user")
unfolding get_parameter_functions unprefixed writes
sanitize-IsChecked_example =
    sanitize-IsChecked setting request configs result (("limit", up_to_100) ∷ []) [] "user" required
      (user_parameter formats) refl refl refl refl refl accepted

sanitize-IsLimit_example : IsLimit (some 100) (memory_lookup result.input "limit")
unfolding nullish value_or default_value limit get_parameter_functions unprefixed writes
    user_parameter is_acct_type
sanitize-IsLimit_example =
    sanitize-IsLimit setting formats request configs result [] (("user", required) ∷ []) up_to_100
      refl refl refl refl refl refl accepted

-- A prefixed name is looked up without its prefix, and copied to its camel-cased name.
set_name :
    (sanitize_parameters setting
      (("new-name", required) ∷ [])
      "body"
      (record { input = ("new-name", text "Ada") ∷ []; warnings = [] }))
    ≡ ok (record { input = ("new-name", text "Ada") ∷ ("newName", text "Ada") ∷ []; warnings = [] })
unfolding sanitize_parameters sanitize_parameter sanitize_known accept_value store_value
    with_default nullish value_of value_or_undefined bounded set_parameter rename_parameter
    get_parameter_functions unprefixed non_empty_string formatted
set_name = refl

-- An empty optional text becomes undefined, and an ignored parameter is removed.
set_empty :
    (sanitize_parameters setting
      (("name", record required { optional = true })
        ∷ ("list", record required { generic = some "ignore" })
        ∷ [])
      "query"
      (record { input = ("name", text "") ∷ ("list", null) ∷ []; warnings = [] }))
    ≡ ok (record { input = ("name", undefined) ∷ []; warnings = [] })
unfolding sanitize_parameters sanitize_parameter sanitize_known accept_value store_value
    with_default nullish value_of value_or_undefined bounded set_parameter rename_parameter omit
    get_parameter_functions unprefixed non_empty_string formatted ignore
set_empty = refl

unknown_name :
    validate_sanitization setting (("title", required) ∷ [])
    ≡ err (http "invalid parameter name" 500)
unfolding validate_sanitization get_parameter_functions unprefixed
unknown_name = refl
