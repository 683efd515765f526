-- ===== src/Functions/Visible/Laws.antt =====
-- What is left of a schema for the caller.
use autom.Prelude.{
  String, ◌≡◌, refl, sym, subst, true, false, none, some, ◌==◌, arith, eq_iff, Bool-cases, inl, inr,
  if◌then◌else◌,
}
use mathlib.Core.Option
use autom.Functions.{object, Items, Fields, no_fields, field, get_field}
use autom.Functions.Visible.{
  contains, object_of, kind_of_schema, filter_visible_properties, filter_entries, filter_properties,
  filter_named,
}

-- A key is one text only.
other_key : (key a b : String) → (key == a) ≡ true → (a == b) ≡ false → (key == b) ≡ false
other_key key a b h n = subst (λ k. (k == b) ≡ false) (sym ((eq_iff key a).0 h)) n

get_field-filter_named :
    (visible : Items) (name : String) (ps : Fields)
    → get_field name (filter_named visible ps) ≡ (
        if contains name visible
        then Option.map filter_visible_properties (get_field name ps)
        else none)
unfolding get_field filter_named
get_field-filter_named visible name no_fields = ground arith
get_field-filter_named visible name (field key value others) =
    ground (arith, get_field-filter_named visible name others, eq_iff key name)

properties_filtered :
    (visible : Items) (fields : Fields)
    → get_field "properties" (filter_entries (object_of visible) fields)
      ≡ Option.map (filter_properties visible) (get_field "properties" fields)
unfolding get_field filter_entries
properties_filtered visible no_fields = refl
properties_filtered visible (field key value others) =
    let next = properties_filtered visible others in
    elim (Bool-cases (key == "visible")) [
      | inl v ↦ rw (v, other_key key "visible" "properties" v refl) next
      | inr nv ↦ elim (Bool-cases (key == "properties")) [
        | inl p ↦ rw (nv, p, p) refl
        | inr np ↦ elim (Bool-cases (key == "required")) [
          | inl r ↦ rw (nv, np, r, np) next
          | inr nr ↦ rw (nv, np, nr, np) next
        ]
      ]
    ]

visible_popped :
    (visible : Items) (fields : Fields)
    → get_field "visible" (filter_entries (object_of visible) fields) ≡ none
unfolding get_field filter_entries
visible_popped visible no_fields = refl
visible_popped visible (field key value others) =
    let next = visible_popped visible others in
    elim (Bool-cases (key == "visible")) [
      | inl v ↦ rw v next
      | inr nv ↦ elim (Bool-cases (key == "properties")) [
        | inl p ↦ rw (nv, p, nv) next
        | inr np ↦ elim (Bool-cases (key == "required")) [
          | inl r ↦ rw (nv, np, r, nv) next
          | inr nr ↦ rw (nv, np, nr, nv) next
        ]
      ]
    ]

-- The schema of an object with properties, as the caller sees it: its list of visible properties is
-- gone, and of its properties those are left that are on the list, each filtered in the same way.
pub filter_visible_properties_lem :
    (fields ps : Fields) (visible : Items)
    → kind_of_schema fields ≡ object_of visible
    → get_field "properties" fields ≡ some (object ps)
    → (shown shown_ps : Fields) × (filter_visible_properties (object fields) ≡ object shown)
      × (get_field "visible" shown ≡ none)
      × (get_field "properties" shown ≡ some (object shown_ps))
      × ((name : String)
          → get_field name shown_ps ≡ (
              if contains name visible
              then Option.map filter_visible_properties (get_field name ps)
              else none))
unfolding filter_visible_properties
filter_visible_properties_lem fields ps visible k h = (
  filter_entries (object_of visible) fields,
  filter_named visible ps,
  rw k refl,
  visible_popped visible fields,
  rw (properties_filtered visible fields, h) refl,
  λ name. get_field-filter_named visible name ps,
)
