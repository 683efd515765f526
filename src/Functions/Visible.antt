-- ===== src/Functions/Visible.antt =====
-- `filter_visible_properties` of aci/common/processor.py, on a schema as JSON: what the caller of a
-- function may see of its parameters.
pub mod Laws
use autom.Prelude.{
  String, Bool, true, false, not, ◌&&◌, Option, none, some, ◌==◌, is_some, if◌then◌else◌,
}
use autom.Functions.{
  Json, null, boolean, number, text, array, object, Items, no_items, item, Fields, no_fields, field,
  get_field,
}

-- `key in items`, of texts
abbrev pub contains : String → Items → Bool
contains key no_items = false
contains key (item (text s) others) = if s == key then true else contains key others
contains key (item value others) = contains key others

abbrev pub is_array : Option Json → Bool
is_array (some (array items)) = true
is_array _ = false

abbrev pub is_type : String → Option Json → Bool
is_type name (some (text s)) = s == name
is_type name _ = false

-- `schema.pop("visible", [])`
abbrev pub visible_of : Option Json → Items
visible_of (some (array items)) = items
visible_of _ = no_items

-- `[key for key in required if key in visible]`
abbrev pub keep_visible : Items → Items → Items
keep_visible visible no_items = no_items
keep_visible visible (item (text s) others) =
    let kept = keep_visible visible others in
    if contains s visible then item (text s) kept else kept
keep_visible visible (item value others) = keep_visible visible others

-- `properties is not None`
abbrev pub has_properties : Option Json → Bool
has_properties none = false
has_properties (some null) = false
has_properties (some (boolean b)) = true
has_properties (some (number n)) = true
has_properties (some (text s)) = true
has_properties (some (array items)) = true
has_properties (some (object entries)) = true

-- The ways to go on with a dictionary, or to return it. An object without properties only loses its
-- "visible".
pub data Kind : Type 0 where
  any_of : Kind
  array_of : Kind
  object_of : Items → Kind
  bare_object : Kind
  other_kind : Kind

unfoldable pub kind_of_schema : Fields → Kind
kind_of_schema fields =
    if is_array (get_field "anyOf" fields)
    then any_of
    else if is_type "array" (get_field "type" fields) && is_some (get_field "items" fields)
    then array_of
    else if is_type "object" (get_field "type" fields)
    then (if has_properties (get_field "properties" fields)
        then object_of (visible_of (get_field "visible" fields))
        else bare_object)
    else other_kind

abbrev pub filter_required : Items → Json → Json
filter_required visible (array items) = array (keep_visible visible items)
filter_required visible value = value

-- The entries are gone through once; which of them change depends on the kind of the whole. The
-- properties of an object are filtered by their names, and then each by itself.
unfoldable mutual
  pub filter_visible_properties : Json → Json
  filter_visible_properties null = null
  filter_visible_properties (boolean b) = boolean b
  filter_visible_properties (number n) = number n
  filter_visible_properties (text s) = text s
  filter_visible_properties (array items) = array items
  filter_visible_properties (object fields) = object (filter_entries (kind_of_schema fields) fields)

  pub filter_entries : Kind → Fields → Fields
  filter_entries kind no_fields = no_fields
  filter_entries any_of (field key value others) =
      let next = filter_entries any_of others in
      let changed = filter_branches value in
      if key == "anyOf" then field key changed next else field key value next
  filter_entries array_of (field key value others) =
      let next = filter_entries array_of others in
      let changed = filter_visible_properties value in
      if key == "items" then field key changed next else field key value next
  filter_entries (object_of visible) (field key value others) =
      let next = filter_entries (object_of visible) others in
      let changed = filter_properties visible value in
      if key == "visible"
      then next
      else if key == "properties"
      then field key changed next
      else if key == "required"
      then field key (filter_required visible value) next
      else field key value next
  filter_entries bare_object (field key value others) =
      let next = filter_entries bare_object others in
      if key == "visible" then next else field key value next
  filter_entries other_kind (field key value others) = field key value others

  pub filter_branches : Json → Json
  filter_branches null = null
  filter_branches (boolean b) = boolean b
  filter_branches (number n) = number n
  filter_branches (text s) = text s
  filter_branches (object fields) = object fields
  filter_branches (array items) = array (filter_all items)

  pub filter_all : Items → Items
  filter_all no_items = no_items
  filter_all (item value others) = item (filter_visible_properties value) (filter_all others)

  pub filter_properties : Items → Json → Json
  filter_properties visible null = null
  filter_properties visible (boolean b) = boolean b
  filter_properties visible (number n) = number n
  filter_properties visible (text s) = text s
  filter_properties visible (array items) = array items
  filter_properties visible (object fields) = object (filter_named visible fields)

  pub filter_named : Items → Fields → Fields
  filter_named visible no_fields = no_fields
  filter_named visible (field key value others) =
      let next = filter_named visible others in
      let changed = filter_visible_properties value in
      if contains key visible then field key changed next else next
