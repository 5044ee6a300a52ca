-- ===== src/Application/Secrets.antt =====
-- application/secrets_service.py: a retrieved secret, its fields, and what is shown of it. The
-- modules of the standard library that read and write JSON are the parameter `JsonPorts`.
pub mod Hidden
pub mod Flattened
pub mod Commands
pub mod Saved
pub mod Lookups
use aws_ssm_kit.Base.{
  ℕ, zero, suc, ◌+◌, Bool, true, false, not, ◌||◌, ◌&&◌, ◌==◌, leb, is_some, Option, none, some,
  List, [], ◌∷◌, ◌++◌, map, if◌then◌else◌, String,
}
use aws_ssm_kit.Errors.{Result, ok, configuration_error, fail_with, raised, configuration}
use aws_ssm_kit.Text.{Text, Runtime, codes, is_empty, same, decimal_text}
use aws_ssm_kit.Domain.SensitiveData.{redacted, is_sensitive_name}

pub data Scalar : Type 0 where
  null : Scalar
  boolean : Bool → Scalar
  -- by its text
  number : Text → Scalar
  string : Text → Scalar

mutual
  pub data Json : Type 0 where
    scalar : Scalar → Json
    object : Members → Json
    array : Items → Json

  -- a dict by its items, in their order
  pub data Members : Type 0 where
    no_members : Members
    member : Text → Json → Members → Members

  pub data Items : Type 0 where
    no_items : Items
    item : Json → Items → Items

pub record SecretField : Type 0 where
  pub path : Text
  pub raw_value : Json
  pub sensitive : Bool

abbrev pub redacted_value : Json
redacted_value = scalar (string redacted)

unfoldable pub masked_value : SecretField → Json
masked_value f = if f.sensitive then redacted_value else f.raw_value

-- `path or "$"`
abbrev pub or_root : Text → Text
or_root path = if is_empty path then codes "$" else path

abbrev pub child_path : Text → Text → Text
child_path path name = if is_empty path then name else path ++ codes "." ++ name

abbrev pub index_path : Text → ℕ → Text
index_path path index = path ++ codes "[" ++ decimal_text index ++ codes "]"

module _ (u : Runtime) where
  unfoldable mutual
    -- `_flatten`, with the fields that it appends
    pub flatten : Json → Text → Bool → List SecretField
    flatten (scalar a) path s =
        record { path = or_root path; raw_value = scalar a; sensitive = s } ∷ []
    flatten (object no_members) path s =
        record { path = or_root path; raw_value = object no_members; sensitive = s } ∷ []
    flatten (object (member name v ms)) path s = flatten_members (member name v ms) path s
    flatten (array no_items) path s =
        record { path = or_root path; raw_value = array no_items; sensitive = s } ∷ []
    flatten (array (item v rest)) path s = flatten_items (item v rest) zero path s

    pub flatten_members : Members → Text → Bool → List SecretField
    flatten_members no_members path s = []
    flatten_members (member name v ms) path s =
        flatten v (child_path path name) (s || is_sensitive_name u name)
        ++ flatten_members ms path s

    pub flatten_items : Items → ℕ → Text → Bool → List SecretField
    flatten_items no_items index path s = []
    flatten_items (item v rest) index path s =
        flatten v (index_path path index) s ++ flatten_items rest (suc index) path s

  unfoldable mutual
    -- `_masked_document`
    pub masked_document : Json → Bool → Json
    masked_document (scalar a) s = if s then redacted_value else scalar a
    masked_document (object ms) s = object (masked_members ms s)
    masked_document (array vs) s = array (masked_items vs s)

    pub masked_members : Members → Bool → Members
    masked_members no_members s = no_members
    masked_members (member name v ms) s =
        member name (masked_document v (s || is_sensitive_name u name)) (masked_members ms s)

    pub masked_items : Items → Bool → Items
    masked_items no_items s = no_items
    masked_items (item v rest) s = item (masked_document v s) (masked_items rest s)

pub data SecretKind : Type 0 where
  json text : SecretKind

pub record SecretResult : Type 0 where
  pub secret_id : Text
  pub kind : SecretKind
  pub fields : List SecretField
  pub version_id : Option Text
  pub version_stages : List Text
  pub raw_secret_string : Text
  pub retrieved_at : Option ℕ

pub record JsonPorts : Type 0 where
  -- `json.loads`; `none` where it raises `JSONDecodeError`
  pub loads : Text → Option Json
  -- `json.dumps`, with an indent of two and without one
  pub dumps : Json → Text
  pub dumps_line : Json → Text

abbrev pub is_container : Json → Bool
is_container (scalar a) = false
is_container (object ms) = true
is_container (array vs) = true

module _ (u : Runtime) (j : JsonPorts) where
  -- the kind and the fields of what `json.loads` answers
  unfoldable pub parsed : Text → Option Json → SecretKind × List SecretField
  unfolding flatten
  parsed raw none = (
    SecretKind.text,
    record { path = codes "$"; raw_value = scalar (string raw); sensitive = true } ∷ [],
  )
  parsed raw (some v) = (
    SecretKind.json,
    if not (is_container v)
        then record { path = codes "$"; raw_value = v; sensitive = true } ∷ []
        else flatten u v [] false,
  )

  -- `_parse`
  unfoldable pub parse : Text → Text → Option Text → List Text → SecretResult
  unfolding parsed
  parse id raw version_id version_stages = record {
    secret_id = id;
    kind = (parsed raw (j.loads raw)).0;
    fields = (parsed raw (j.loads raw)).1;
    version_id = version_id;
    version_stages = version_stages;
    raw_secret_string = raw;
    retrieved_at = none;
  }

  -- the document that is shown
  unfoldable pub projected : Json → Bool → Json
  unfolding masked_document
  projected v reveal = if reveal then v else masked_document u v (not (is_container v))

  -- `json_text`; `none` where the string is no JSON
  unfoldable pub json_text : SecretResult → Bool → Option Text
  unfolding projected
  json_text r reveal = elim r.kind [
    | SecretKind.text ↦
        some (j.dumps (scalar (string (if reveal then r.raw_secret_string else redacted))))
    | SecretKind.json ↦ elim (j.loads r.raw_secret_string) [
      | none ↦ none
      | some v ↦ some (j.dumps (projected v reveal))
    ]
  ]

  -- `_value_text`
  unfoldable pub value_text : Json → Text
  value_text (scalar (string s)) = s
  value_text v = j.dumps_line v

  unfoldable pub key_value_lines : List SecretField → Text
  unfolding value_text
  key_value_lines [] = []
  key_value_lines (f ∷ []) = f.path ++ codes ": " ++ value_text f.raw_value
  key_value_lines (f ∷ g ∷ fs) =
      f.path ++ codes ": " ++ value_text f.raw_value ++ (10 ∷ key_value_lines (g ∷ fs))

  -- `copy_text`
  unfoldable pub copy_text : SecretResult → Text → Option Text
  unfolding json_text key_value_lines
  copy_text r format_name =
      if same format_name (codes "json")
      then json_text r true
      else if same format_name (codes "key_value")
      then some (key_value_lines r.fields)
      else some r.raw_secret_string

-- `field`
unfoldable pub field : Text → List SecretField → Result SecretField
field path [] = fail_with (
    raised configuration "secret.field.not_found"
      "The requested field is absent from the retrieved secret")
field path (f ∷ fs) = if same f.path path then ok f else field path fs
