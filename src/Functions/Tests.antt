-- ===== src/Functions/Tests.antt =====
-- The input of a function at one schema.
use autom.Prelude.{◌≡◌, refl, true, false, none, some, [], ◌∷◌, is_some}
use autom.Prelude.Result.{ok}
use autom.Functions.{
  Json, null, text, array, object, no_items, item, Fields, no_fields, field, get_field, set_field,
}
use autom.Functions.Nulls.{remove_none_values, HasNoNone, remove_none_values_lem}
use autom.Functions.Schema.{
  Keywords, Schema, schema, no_properties, property, Properties,
  validate_function_parameters_schema_common, inject_all, set_default,
  inject_required_but_invisible_defaults,
}
use autom.Functions.Schema.Laws.{IsStrict, inject_total}
use autom.Functions.Schema.Present.{inject_lem}

abbrev mail : Json
mail =
    object
      (field "to" (array (item null (item (text "a@b.c") no_items))) (field "cc" null no_fields))

remove_none_values_lem_example :
    HasNoNone (remove_none_values mail)
    × (remove_none_values (remove_none_values mail) ≡ remove_none_values mail)
remove_none_values_lem_example = remove_none_values_lem mail

-- A text with a default that the user does not see.
abbrev key : Keywords
key = record {
  type = some "string";
  has_properties = false;
  required = none;
  visible = none;
  additional_properties = none;
  default = some (text "v1");
}

abbrev header : Keywords
header = record key {
  type = some "object";
  has_properties = true;
  required = some ("version" ∷ []);
  visible = some [];
  additional_properties = some false;
  default = none;
}

abbrev version : Properties
version = property "version" (schema key no_properties) no_properties

abbrev top : Schema
top =
    schema (record header { required = some ("header" ∷ []) })
      (property "header" (schema header version) no_properties)

top-IsStrict : IsStrict top
unfolding IsStrict
top-IsStrict = ((λ h. cc h), (((λ h. cc h), (((λ h. refl), tt), tt)), tt))

top_valid : validate_function_parameters_schema_common top ≡ ok tt
unfolding validate_function_parameters_schema_common
top_valid = refl

inject_total_example :
    (out : Fields) × (inject_required_but_invisible_defaults top no_fields ≡ ok out)
inject_total_example = inject_total top no_fields top-IsStrict top_valid

injected :
    inject_required_but_invisible_defaults (schema header version) no_fields
    ≡ ok (field "version" (text "v1") no_fields)
unfolding inject_required_but_invisible_defaults inject_all set_default get_field set_field
injected = refl

inject_lem_example : is_some (get_field "version" (field "version" (text "v1") no_fields)) ≡ true
unfolding get_field
inject_lem_example =
    inject_lem header version no_fields (field "version" (text "v1") no_fields) "version" injected
      refl
