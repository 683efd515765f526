-- ===== src/Functions/Schema/Laws.antt =====
-- A schema that passes the validation never makes the injection of the defaults fail.
use autom.Prelude.{
  String, ◌≡◌, refl, true, false, not, ◌&&◌, ◌||◌, Option, some, [], arith, is_some, get_or,
  Bool-cases, Option-cases, inl, inr,
}
use autom.Prelude.Result.{
  value_error, Result, ok, err, ◌>>=◌, ◌>>◌, raise_if, raise_if-ok, >>=-eq-ok,
}
use autom.Functions.{Json, object, Fields, no_fields, get_field, set_field}
use autom.Functions.Schema.{
  Keywords, Schema, schema, Properties, no_properties, property, keywords, is_object, is_hidden,
  defaults_given, children_hidden, validate_function_parameters_schema_common, validate_all,
  default_of, set_default, inject_all, inject_nested, inject_required_but_invisible_defaults,
  all_in,
}

-- Only schemas of the type "object" have properties, at every depth.
unfoldable mutual
  pub IsStrict : Schema → Type 0
  IsStrict (schema k ps) = (is_object k ≡ false → ps ≡ no_properties) × AreStrict ps

  pub AreStrict : Properties → Type 0
  AreStrict no_properties = Unit
  AreStrict (property name s rest) = IsStrict s × AreStrict rest

-- What the validation of an object gives.
validate_object :
    (k : Keywords) (ps : Properties)
    → validate_function_parameters_schema_common (schema k ps) ≡ ok tt
    → is_object k ≡ true
    → (defaults_given k ps ≡ true) × (validate_all k ps ≡ ok tt)
unfolding validate_function_parameters_schema_common
validate_object k ps h o =
    let (q1, h1) = raise_if-ok (not k.has_properties) value_error _ tt (rw o at h) in
    let (q2, h2) = raise_if-ok (not (is_some k.required)) value_error _ tt h1 in
    let (q3, h3) = raise_if-ok (not (is_some k.visible)) value_error _ tt h2 in
    let (q4, h4) = raise_if-ok (not (is_some k.additional_properties)) value_error _ tt h3 in
    let (q5, h5) = raise_if-ok (not (all_in (get_or k.required []) ps)) value_error _ tt h4 in
    let (q6, h6) = raise_if-ok (not (all_in (get_or k.visible []) ps)) value_error _ tt h5 in
    let (q7, h7) = raise_if-ok (not (defaults_given k ps)) value_error _ tt h6 in
    (ground (arith, q7), h7)

abbrev Returns : Result Fields → Type 0
Returns r = (out : Fields) × (r ≡ ok out)

default_of-Returns :
    (child : Keywords)
    → (is_object child || is_some child.default) ≡ true
    → (value : Json) × (default_of child ≡ ok value)
unfolding default_of
default_of-Returns child h = elim (Option-cases child.default) [
  | inr (value, e) ↦ (value, ground (arith, e))
  | inl missing ↦ (object no_fields, ground (arith, missing, h))
]

set_default_total :
    (k : Keywords) (name : String) (child : Keywords) (input : Fields)
    → (not (is_hidden k name) || is_object child || is_some child.default) ≡ true
    → Returns (set_default k name child input)
unfolding set_default
set_default_total k name child input h =
    elim (Bool-cases (not (is_some (get_field name input)) && is_hidden k name)) [
      | inr leave ↦ (input, rw leave refl)
      | inl fill ↦
          let (value, e) = default_of-Returns child (ground (arith, h, fill)) in
          (set_field name value input, rw (fill, e) refl)
    ]

Returns->>= :
    (r : Result Fields) (next : Fields → Result Fields)
    → Returns r
    → ((out : Fields) → Returns (next out))
    → Returns (r >>= next)
Returns->>= (ok out) next h k = k out
Returns->>= (err e) next (out, h) k = absurd (ground (arith, h))

nested_found :
    (k : Keywords) (ps : Properties) (name : String) (found : Option Json) (input : Fields)
    → ((fields : Fields) → Returns (inject_all k ps fields))
    → Returns (inject_nested (schema k ps) name found input)
unfolding inject_nested
nested_found k ps name (some (object fields)) input h =
    Returns->>= (inject_all k ps fields) (λ fields'. ok (set_field name (object fields') input))
      (h fields) (λ fields'. (set_field name (object fields') input, refl))
nested_found k ps name _ input h = (input, refl)

mutual
  unfolding validate_all inject_all AreStrict

  inject_all_total :
      (k : Keywords) (ps : Properties) (input : Fields)
      → AreStrict ps
      → defaults_given k ps ≡ true
      → validate_all k ps ≡ ok tt
      → Returns (inject_all k ps input)
  inject_all_total k no_properties input strict given valid = (input, refl)
  inject_all_total k (property name s rest) input (strict, stricts) given valid =
      let (u, child, more) =
        >>=-eq-ok (validate_function_parameters_schema_common s)
          (λ u. raise_if (children_hidden k name (keywords s)) value_error >> validate_all k rest)
          valid in
      let (shown, others) =
        raise_if-ok (children_hidden k name (keywords s)) value_error (validate_all k rest) tt
          more in
      Returns->>= (set_default k name (keywords s) input) _
        (set_default_total k name (keywords s) input (ground (arith, given)))
        (λ input'.
          Returns->>= (inject_nested s name (get_field name input') input') _
            (inject_nested_total s name (get_field name input') input' strict child)
            (λ input''. inject_all_total k rest input'' stricts (ground (arith, given)) others))

  inject_nested_total :
      (s : Schema) (name : String) (found : Option Json) (input : Fields)
      → IsStrict s
      → validate_function_parameters_schema_common s ≡ ok tt
      → Returns (inject_nested s name found input)
  inject_nested_total (schema k ps) name found input (objects, strict) valid =
      nested_found k ps name found input (λ fields. elim (Bool-cases (is_object k)) [
        | inl is ↦
            let (given, all_valid) = validate_object k ps valid is in
            inject_all_total k ps fields strict given all_valid
        | inr other ↦ rw (objects other, inject_all) (fields, refl)
      ])

-- If a schema passes the common validation, and properties stand in schemas of the type "object"
-- only, at every depth, then the injection of the defaults returns for every input, of any shape.
pub inject_total :
    (s : Schema) (input : Fields)
    → IsStrict s
    → validate_function_parameters_schema_common s ≡ ok tt
    → (out : Fields) × (inject_required_but_invisible_defaults s input ≡ ok out)
unfolding inject_required_but_invisible_defaults IsStrict inject_all
inject_total (schema k ps) input (objects, strict) valid = elim (Bool-cases (is_object k)) [
  | inl is ↦
      let (given, all_valid) = validate_object k ps valid is in
      inject_all_total k ps input strict given all_valid
  | inr other ↦ rw (objects other, inject_all) (input, refl)
]
