-- ===== src/Functions/Schema.antt =====
-- `validate_function_parameters_schema_common` of aci/common/validator.py, and
-- `inject_required_but_invisible_defaults` of aci/common/processor.py.
pub mod Laws
pub mod Present
use autom.Prelude.{
  String, Bool, true, false, not, ◌&&◌, ◌||◌, Option, none, some, List, [], ◌∷◌, ◌==◌, member,
  is_some, get_or, if◌then◌else◌,
}
use autom.Prelude.Result.{value_error, bare_exception, Result, ok, err, ◌>>=◌, ◌>>◌, raise_if}
use autom.Prelude.Text.{is_text}
use autom.Functions.{Json, object, Fields, no_fields, get_field, set_field}

-- The keys of a schema that the two functions read, apart from "properties". A key that the schema
-- does not have is none.
pub record Keywords : Type 0 where
  pub type : Option String
  pub has_properties : Bool
  pub required : Option (List String)
  pub visible : Option (List String)
  pub additional_properties : Option Bool
  pub default : Option Json

-- The properties are those that `schema.get("properties", {})` gives.
mutual
  pub data Schema : Type 0 where
    schema : Keywords → Properties → Schema

  pub data Properties : Type 0 where
    no_properties : Properties
    property : String → Schema → Properties → Properties

abbrev pub keywords : Schema → Keywords
keywords (schema k ps) = k

-- `schema.get("type") == "object"`
abbrev pub is_object : Keywords → Bool
is_object k = is_text k.type "object"

-- `prop in properties`
abbrev pub has_property : String → Properties → Bool
has_property name no_properties = false
has_property name (property p s rest) = p == name || has_property name rest

abbrev pub all_in : List String → Properties → Bool
all_in [] ps = true
all_in (name ∷ names) ps = has_property name ps && all_in names ps

-- Required, and not visible.
abbrev pub is_hidden : Keywords → String → Bool
is_hidden k name = member name (get_or k.required []) && not (member name (get_or k.visible []))

-- The loop over the properties that are required but not visible.
abbrev pub defaults_given : Keywords → Properties → Bool
defaults_given k no_properties = true
defaults_given k (property name s rest) =
    (not (is_hidden k name) || is_object (keywords s) || is_some (keywords s).default)
    && defaults_given k rest

abbrev pub is_empty : Option (List String) → Bool
is_empty none = true
is_empty (some []) = true
is_empty (some (name ∷ names)) = false

-- A visible object all of whose children are invisible.
abbrev pub children_hidden : Keywords → String → Keywords → Bool
children_hidden k name child =
    is_object child
    && is_empty child.visible
    && member name (get_or k.visible [])
    && not (get_or child.additional_properties false)

unfoldable mutual
  -- The path is only part of the messages.
  pub validate_function_parameters_schema_common : Schema → Result (Unit {0})
  validate_function_parameters_schema_common (schema k ps) =
      if not (is_object k)
      then raise_if (is_some k.required || is_some k.visible) value_error
      else do
        raise_if (not k.has_properties) value_error
        raise_if (not (is_some k.required)) value_error
        raise_if (not (is_some k.visible)) value_error
        raise_if (not (is_some k.additional_properties)) value_error
        raise_if (not (all_in (get_or k.required []) ps)) value_error
        raise_if (not (all_in (get_or k.visible []) ps)) value_error
        raise_if (not (defaults_given k ps)) value_error
        validate_all k ps

  pub validate_all : Keywords → Properties → Result (Unit {0})
  validate_all k no_properties = ok tt
  validate_all k (property name s rest) = do
    validate_function_parameters_schema_common s
    raise_if (children_hidden k name (keywords s)) value_error
    validate_all k rest

-- The value of a hidden property that the input does not have.
pub default_of : Keywords → Result Json
default_of k = elim k.default [
  | some value ↦ ok value
  | none ↦ if is_object k then ok (object no_fields) else err bare_exception
]

unfoldable pub set_default : Keywords → String → Keywords → Fields → Result Fields
unfolding default_of
set_default k name child input =
    if not (is_some (get_field name input)) && is_hidden k name
    then (do value ← default_of child; ok (set_field name value input))
    else ok input

unfoldable mutual
  -- The loop over the properties.
  pub inject_all : Keywords → Properties → Fields → Result Fields
  inject_all k no_properties input = ok input
  inject_all k (property name s rest) input = do
    input' ← set_default k name (keywords s) input
    input'' ← inject_nested s name (get_field name input') input'
    inject_all k rest input''

  -- `if isinstance(input_data.get(prop), dict):` and the call for the nested schema.
  pub inject_nested : Schema → String → Option Json → Fields → Result Fields
  inject_nested (schema k ps) name (some (object fields)) input = do
    fields' ← inject_all k ps fields
    ok (set_field name (object fields') input)
  inject_nested (schema k ps) name _ input = ok input

unfoldable pub inject_required_but_invisible_defaults : Schema → Fields → Result Fields
inject_required_but_invisible_defaults (schema k ps) input = inject_all k ps input
