-- ===== src/Functions/Nulls.antt =====
-- `remove_none_values` of aci/common/processor.py.
use autom.Prelude.{◌≡◌, refl, ap}
use autom.Functions.{
  Json, null, boolean, number, text, array, object, Items, no_items, item, Fields, no_fields, field,
}

unfoldable mutual
  pub remove_none_values : Json → Json
  remove_none_values null = null
  remove_none_values (boolean b) = boolean b
  remove_none_values (number n) = number n
  remove_none_values (text s) = text s
  remove_none_values (array items) = array (clean_items items)
  remove_none_values (object fields) = object (clean_fields fields)

  -- `[remove_none_values(item) for item in data if item is not None]`
  pub clean_items : Items → Items
  clean_items no_items = no_items
  clean_items (item null rest) = clean_items rest
  clean_items (item value rest) = item (remove_none_values value) (clean_items rest)

  -- `{k: remove_none_values(v) for k, v in data.items() if v is not None}`
  pub clean_fields : Fields → Fields
  clean_fields no_fields = no_fields
  clean_fields (field key null rest) = clean_fields rest
  clean_fields (field key value rest) = field key (remove_none_values value) (clean_fields rest)

-- Nothing inside a value is None.
mutual
  pub HasNoNone : Json → Type 0
  HasNoNone null = Unit
  HasNoNone (boolean b) = Unit
  HasNoNone (number n) = Unit
  HasNoNone (text s) = Unit
  HasNoNone (array items) = ItemsHaveNoNone items
  HasNoNone (object fields) = FieldsHaveNoNone fields

  pub ItemsHaveNoNone : Items → Type 0
  ItemsHaveNoNone no_items = Unit
  ItemsHaveNoNone (item null rest) = ⊥
  ItemsHaveNoNone (item value rest) = HasNoNone value × ItemsHaveNoNone rest

  pub FieldsHaveNoNone : Fields → Type 0
  FieldsHaveNoNone no_fields = Unit
  FieldsHaveNoNone (field key null rest) = ⊥
  FieldsHaveNoNone (field key value rest) = HasNoNone value × FieldsHaveNoNone rest

mutual
  unfolding remove_none_values HasNoNone

  clean : (j : Json) → HasNoNone (remove_none_values j)
  clean null = tt
  clean (boolean b) = tt
  clean (number n) = tt
  clean (text s) = tt
  clean (array items) = clean_each items
  clean (object fields) = clean_all fields

  clean_each : (items : Items) → ItemsHaveNoNone (clean_items items)
  clean_each no_items = tt
  clean_each (item null rest) = clean_each rest
  clean_each (item (boolean b) rest) = (tt, clean_each rest)
  clean_each (item (number n) rest) = (tt, clean_each rest)
  clean_each (item (text s) rest) = (tt, clean_each rest)
  clean_each (item (array items) rest) = (clean_each items, clean_each rest)
  clean_each (item (object fields) rest) = (clean_all fields, clean_each rest)

  clean_all : (fields : Fields) → FieldsHaveNoNone (clean_fields fields)
  clean_all no_fields = tt
  clean_all (field key null rest) = clean_all rest
  clean_all (field key (boolean b) rest) = (tt, clean_all rest)
  clean_all (field key (number n) rest) = (tt, clean_all rest)
  clean_all (field key (text s) rest) = (tt, clean_all rest)
  clean_all (field key (array items) rest) = (clean_each items, clean_all rest)
  clean_all (field key (object fields) rest) = (clean_all fields, clean_all rest)

mutual
  unfolding remove_none_values HasNoNone

  same : (j : Json) → HasNoNone j → remove_none_values j ≡ j
  same null h = refl
  same (boolean b) h = refl
  same (number n) h = refl
  same (text s) h = refl
  same (array items) h = ap array (same_items items h)
  same (object fields) h = ap object (same_fields fields h)

  same_items : (items : Items) → ItemsHaveNoNone items → clean_items items ≡ items
  same_items no_items h = refl
  same_items (item null rest) h = absurd h
  same_items (item (boolean b) rest) (h, k) = rw (same_items rest k) refl
  same_items (item (number n) rest) (h, k) = rw (same_items rest k) refl
  same_items (item (text s) rest) (h, k) = rw (same_items rest k) refl
  same_items (item (array items) rest) (h, k) = rw (same_items items h, same_items rest k) refl
  same_items (item (object fields) rest) (h, k) = rw (same_fields fields h, same_items rest k) refl

  same_fields : (fields : Fields) → FieldsHaveNoNone fields → clean_fields fields ≡ fields
  same_fields no_fields h = refl
  same_fields (field key null rest) h = absurd h
  same_fields (field key (boolean b) rest) (h, k) = rw (same_fields rest k) refl
  same_fields (field key (number n) rest) (h, k) = rw (same_fields rest k) refl
  same_fields (field key (text s) rest) (h, k) = rw (same_fields rest k) refl
  same_fields (field key (array items) rest) (h, k) =
      rw (same_items items h, same_fields rest k) refl
  same_fields (field key (object fields) rest) (h, k) =
      rw (same_fields fields h, same_fields rest k) refl

-- What is left has no None at any depth inside a list or a dict, and a second call changes nothing.
pub remove_none_values_lem :
    (j : Json)
    → HasNoNone (remove_none_values j)
      × (remove_none_values (remove_none_values j) ≡ remove_none_values j)
remove_none_values_lem j = (clean j, same (remove_none_values j) (clean j))
