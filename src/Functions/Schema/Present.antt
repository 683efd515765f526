-- ===== src/Functions/Schema/Present.antt =====
-- What the injection of the defaults leaves in the input.
use autom.Prelude.{
  String, ◌≡◌, refl, subst, Bool, true, not, ◌&&◌, ◌||◌, Option, some, arith, ◌==◌, eq_iff, eq_refl,
  is_some, Bool-cases, inl, inr, if◌then◌else◌,
}
use autom.Prelude.Result.{Result, ok, ◌>>=◌, >>=-eq-ok}
use autom.Functions.{Json, object, Fields, no_fields, field, get_field, set_field}
use autom.Functions.Schema.{
  Keywords, Schema, schema, Properties, no_properties, property, keywords, is_hidden, has_property,
  default_of, set_default, inject_all, inject_nested, inject_required_but_invisible_defaults,
}

pub get_field-set_field :
    (j k : String) (v : Json) (d : Fields)
    → get_field j (set_field k v d) ≡ (if k == j then some v else get_field j d)
unfolding get_field set_field
get_field-set_field j k v no_fields = ground arith
get_field-set_field j k v (field l w rest) =
    ground (arith, get_field-set_field j k v rest, eq_iff l k, eq_iff l j, eq_iff k j)

ok-injective : (a b : Fields) → ◌≡◌ {A = Result Fields} (ok a) (ok b) → a ≡ b
ok-injective a b h = cc h

has : String → Fields → Bool
has p d = is_some (get_field p d)

has-set_field :
    (p k : String) (v : Json) (d : Fields) → has p d ≡ true → has p (set_field k v d) ≡ true
unfolding has
has-set_field p k v d h = rw (get_field-set_field p k v d) (ground (arith, h))

module _ (p : String) where
  set_default-has :
      (k : Keywords) (name : String) (child : Keywords) (input out : Fields)
      → set_default k name child input ≡ ok out
      → has p input ≡ true
      → has p out ≡ true
  unfolding set_default
  set_default-has k name child input out e h =
      elim (Bool-cases (not (is_some (get_field name input)) && is_hidden k name)) [
        | inr leave ↦ subst (λ d. has p d ≡ true) (ok-injective input out (rw leave at e)) h
        | inl fill ↦
            let (value, d, built) =
              >>=-eq-ok (default_of child) (λ value. ok (set_field name value input))
                (rw fill at e) in
            subst (λ d. has p d ≡ true) (ok-injective _ out built)
              (has-set_field p name value input h)
      ]

  inject_nested-has :
      (s : Schema) (name : String) (found : Option Json) (input out : Fields)
      → inject_nested s name found input ≡ ok out
      → has p input ≡ true
      → has p out ≡ true
  unfolding inject_nested
  inject_nested-has (schema k ps) name (some (object fields)) input out e h =
      let (fields', d, built) =
        >>=-eq-ok (inject_all k ps fields) (λ fields'. ok (set_field name (object fields') input))
          e in
      subst (λ d. has p d ≡ true) (ok-injective _ out built)
        (has-set_field p name (object fields') input h)
  inject_nested-has (schema k ps) name _ input out e h =
      subst (λ d. has p d ≡ true) (ok-injective input out e) h

  inject_all-step :
      (k : Keywords) (name : String) (s : Schema) (rest : Properties) (input out : Fields)
      → inject_all k (property name s rest) input ≡ ok out
      → (input' : Fields) × (set_default k name (keywords s) input ≡ ok input')
        × ((input'' : Fields) × (inject_nested s name (get_field name input') input' ≡ ok input'')
            × (inject_all k rest input'' ≡ ok out))
  unfolding inject_all
  inject_all-step k name s rest input out e =
      let (input', first, more) =
        >>=-eq-ok (set_default k name (keywords s) input)
          (λ input'. inject_nested s name (get_field name input') input' >>= λ input''.
            inject_all k rest input'')
          e in
      let (input'', second, last) =
        >>=-eq-ok (inject_nested s name (get_field name input') input')
          (λ input''. inject_all k rest input'') more in
      (input', first, (input'', second, last))

  inject_all-has :
      (k : Keywords) (ps : Properties) (input out : Fields)
      → inject_all k ps input ≡ ok out
      → has p input ≡ true
      → has p out ≡ true
  inject_all-has k no_properties input out e h =
      subst (λ d. has p d ≡ true) (ok-injective input out (unfold inject_all in e)) h
  inject_all-has k (property name s rest) input out e h =
      let (input', first, (input'', second, last)) = inject_all-step k name s rest input out e in
      inject_all-has k rest input'' out last (
        inject_nested-has s name (get_field name input') input' input'' second
          (set_default-has k name (keywords s) input input' first h))

  set_default-hidden :
      (k : Keywords) (child : Keywords) (input out : Fields)
      → set_default k p child input ≡ ok out
      → is_hidden k p ≡ true
      → has p out ≡ true
  unfolding set_default has
  set_default-hidden k child input out e hidden = elim (Bool-cases (is_some (get_field p input))) [
    | inl there ↦ set_default-has k p child input out e there
    | inr missing ↦
        let fill : not (is_some (get_field p input)) && is_hidden k p ≡ true =
          rw (missing, hidden) refl in
        let (value, d, built) =
          >>=-eq-ok (default_of child) (λ value. ok (set_field p value input)) (rw fill at e) in
        subst (λ d. is_some (get_field p d) ≡ true) (ok-injective _ out built)
          (rw (get_field-set_field p p value input) (rw (eq_refl p) refl))
  ]

  inject_all-hidden :
      (k : Keywords) (ps : Properties) (input out : Fields)
      → inject_all k ps input ≡ ok out
      → has_property p ps ≡ true
      → is_hidden k p ≡ true
      → has p out ≡ true
  inject_all-hidden k no_properties input out e named hidden = absurd (cc named)
  inject_all-hidden k (property name s rest) input out e named hidden =
      let (input', first, (input'', second, last)) = inject_all-step k name s rest input out e in
      elim (Bool-cases (name == p)) [
        | inl same ↦
            let first' : set_default k p (keywords s) input ≡ ok input' =
              subst (λ n. set_default k n (keywords s) input ≡ ok input') ((eq_iff name p).0 same)
                first in
            inject_all-has k rest input'' out last (
              inject_nested-has s name (get_field name input') input' input'' second
                (set_default-hidden k (keywords s) input input' first' hidden))
        | inr other ↦ inject_all-hidden k rest input'' out last (rw other at named) hidden
      ]

-- If the injection returns, its result has every field that the input had, and a field for every
-- property of the schema that is required and not visible.
pub inject_lem :
    (k : Keywords) (ps : Properties) (input out : Fields) (p : String)
    → inject_required_but_invisible_defaults (schema k ps) input ≡ ok out
    → (is_some (get_field p input) || (has_property p ps && is_hidden k p)) ≡ true
    → is_some (get_field p out) ≡ true
unfolding inject_required_but_invisible_defaults has
inject_lem k ps input out p e h = elim (Bool-cases (is_some (get_field p input))) [
  | inl there ↦ inject_all-has p k ps input out e there
  | inr missing ↦
      inject_all-hidden p k ps input out e (ground (arith, h, missing)) (ground (arith, h, missing))
]
