-- ===== src/Sanitization/Parameters.antt =====
-- Parameters of server/lib/sanitize/parameters.ts: how each is read and which values it admits.
use inventaire.Base.{
  ℕ, String, Bool, true, false, Option, none, some, ◌==◌, string_eq, nat_beq, ltb, includes, not,
  ◌||◌, if◌then◌else◌, Outcome, ok, err, Failure, http,
}
use Prim.Native.String.{◌++◌}
use inventaire.Validation.{is_couch_uuid, text_length}
use inventaire.Patches.Creation.{is_user_acct}
use inventaire.Sanitization.{
  Value, undefined, null, natural, text, other, ParameterConfig, Parameter, nullish,
  local_user_acct,
}

-- What JavaScript does with the other values and with texts: the type that `typeof` names, with
-- arrays apart, whether it is a number, parseFloat of a value that is no number (`none` is NaN),
-- normalizeString, and the host of a URL. `public_host` is configured.
pub record Formats (Other : Type 0) : Type 0 where
  pub other_type : Other → String
  pub is_number : Other → Bool
  pub parse_float : Value Other → Option (Value Other)
  pub normalize_string : String → String
  pub url_host : String → Option String
  pub public_host : String

module _ {Other : Type 0} (formats : Formats Other) where
  open formats use {other_type, is_number, parse_float, normalize_string, url_host, public_host}

  unfoldable pub type_of : Value Other → String
  type_of undefined = "undefined"
  type_of null = "null"
  type_of (natural n) = "number"
  type_of (text t) = "string"
  type_of (other o) = other_type o

  unfoldable pub parsed : Value Other → Value Other
  parsed v = elim (parse_float v) [ some number ↦ number | none ↦ v ]

  -- parseNumberString
  unfoldable pub parse_number_string : Value Other → Value Other
  unfolding parsed
  parse_number_string (natural n) = natural n
  parse_number_string (other o) = if is_number o then other o else parsed (other o)
  parse_number_string undefined = parsed undefined
  parse_number_string null = parsed null
  parse_number_string (text t) = parsed (text t)

  -- `Number.isInteger(num) && num >= 0`
  unfoldable pub is_natural : Value Other → Bool
  is_natural (natural n) = true
  is_natural _ = false

  unfoldable pub positive_integer : Option (Value Other) → Option ℕ → Option ℕ → Parameter Other
  unfolding parse_number_string is_natural
  positive_integer default min max = record {
    drop = false;
    default = default;
    min = min;
    max = max;
    format = some (λ v name config. ok (parse_number_string v));
    validate = λ v name config. ok (is_natural v);
    rename = none;
  }

  unfoldable pub limit : Parameter Other
  unfolding positive_integer
  limit = positive_integer (some (natural 100)) (some 1) none

  unfoldable pub offset : Parameter Other
  unfolding positive_integer
  offset = positive_integer (some (natural 0)) none none

  unfoldable pub range : Parameter Other
  unfolding positive_integer
  range = positive_integer (some (natural 50)) none (some 500)

  unfoldable pub is_couch_uuid_value : Value Other → Bool
  is_couch_uuid_value (text t) = is_couch_uuid t
  is_couch_uuid_value _ = false

  unfoldable pub couch_uuid_without_renaming : Parameter Other
  unfolding is_couch_uuid_value
  couch_uuid_without_renaming = record {
    drop = false;
    default = none;
    min = none;
    max = none;
    format = none;
    validate = λ v name config. ok (is_couch_uuid_value v);
    rename = none;
  }

  -- couchUuid, with renameId
  unfoldable pub couch_uuid : Parameter Other
  unfolding couch_uuid_without_renaming
  couch_uuid = record couch_uuid_without_renaming { rename = some (λ name config. name ++ "Id") }

  unfoldable pub format_string : Value Other → ParameterConfig Other → Value Other
  format_string (text t) config =
      if t == ""
      then if config.optional then undefined else text (normalize_string t)
      else text (normalize_string t)
  format_string v config = v

  -- `config.length && value.length !== config.length`
  unfoldable pub wrong_length : Option ℕ → String → Bool
  unfolding text_length
  wrong_length none t = false
  wrong_length (some n) t = if nat_beq n 0 then false else not (nat_beq (text_length t) n)

  abbrev pub invalid_string : String → String → Failure
  invalid_string name details = http ((("invalid " ++ name) ++ ": ") ++ details) 400

  -- The lengths are left out of the message on a wrong length.
  unfoldable pub validate_string : Value Other → String → ParameterConfig Other → Outcome Bool
  unfolding wrong_length type_of nullish text_length
  validate_string (text t) name config =
      if ltb (text_length t) 1
      then err (invalid_string name (name ++ " cannot be empty"))
      else if wrong_length config.text_length t
      then err (http (("invalid " ++ name) ++ " length") 400)
      else ok true
  validate_string (natural n) name config = err (invalid_string name "expected string, got number")
  validate_string (other o) name config =
      err (invalid_string name ("expected string, got " ++ other_type o))
  validate_string v name config =
      if config.optional
      then ok true
      else err (invalid_string name ("expected string, got " ++ type_of v))

  unfoldable pub non_empty_string : Parameter Other
  unfolding format_string validate_string
  non_empty_string = record {
    drop = false;
    default = none;
    min = none;
    max = none;
    format = some (λ v name config. ok (format_string v config));
    validate = validate_string;
    rename = none;
  }

  -- The value that is refused and the possible values are left out of the message.
  unfoldable pub validate_allowlisted : Value Other → String → ParameterConfig Other → Outcome Bool
  unfolding includes
  validate_allowlisted (text t) name config =
      if includes config.allowlist t then ok true else err (http ("invalid " ++ name) 400)
  validate_allowlisted v name config = err (http ("invalid " ++ name) 400)

  unfoldable pub allowlisted_string : Parameter Other
  unfolding validate_allowlisted
  allowlisted_string = record {
    drop = false;
    default = none;
    min = none;
    max = none;
    format = none;
    validate = validate_allowlisted;
    rename = none;
  }

  -- `config.type === 'acct'`
  unfoldable pub is_acct_type : ParameterConfig Other → Bool
  is_acct_type config = elim config.type [ none ↦ false | some t ↦ t == "acct" ]

  unfoldable pub format_user : Value Other → ParameterConfig Other → Value Other
  unfolding is_acct_type
  format_user (text t) config =
      if is_acct_type config
      then if is_couch_uuid t then text (local_user_acct public_host t) else text t
      else text t
  format_user v config = v

  unfoldable pub validate_user : Value Other → ParameterConfig Other → Bool
  unfolding is_acct_type
  validate_user (text t) config =
      if is_acct_type config then is_user_acct url_host t else is_couch_uuid t
  validate_user v config = false

  unfoldable pub user_parameter : Parameter Other
  unfolding format_user validate_user is_acct_type
  user_parameter = record {
    drop = false;
    default = none;
    min = none;
    max = none;
    format = some (λ v name config. ok (format_user v config));
    validate = λ v name config. ok (validate_user v config);
    rename = some (λ name config. if is_acct_type config then name ++ "Acct" else name ++ "Id");
  }

  -- `value`: anything, of the type that the configuration names if it names one
  unfoldable pub validate_value : Value Other → String → ParameterConfig Other → Outcome Bool
  unfolding type_of
  validate_value v name config = elim config.type [
    | none ↦ ok true
    | some expected ↦
        if expected == "" || type_of v == expected
        then ok true
        else err (
            http (("invalid value type: " ++ type_of v) ++ ((" (expected " ++ expected) ++ ")"))
              400)
  ]

  unfoldable pub any_value : Parameter Other
  unfolding validate_value
  any_value = record {
    drop = false;
    default = none;
    min = none;
    max = none;
    format = none;
    validate = validate_value;
    rename = none;
  }

-- The generic parameter `ignore`
unfoldable pub ignore : {Other : Type 0} → Parameter Other
ignore = record {
  drop = true;
  default = none;
  min = none;
  max = none;
  format = none;
  validate = λ v name config. ok true;
  rename = none;
}
