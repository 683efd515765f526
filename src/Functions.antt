-- ===== src/Functions.antt =====
-- The input of a function: JSON values, and the schema of its parameters, which
-- aci/common/validator.py checks and aci/common/processor.py reads.
pub mod Nulls
pub mod Schema
pub mod Visible
pub mod Execution
mod Tests
use autom.Prelude.{String, Bool, true, false, Option, none, some, ◌==◌, if◌then◌else◌}

-- A number keeps its text. The fields of a dict stand in the order in which they were set.
mutual
  pub data Json : Type 0 where
    null : Json
    boolean : Bool → Json
    number : String → Json
    text : String → Json
    array : Items → Json
    object : Fields → Json

  pub data Items : Type 0 where
    no_items : Items
    item : Json → Items → Items

  pub data Fields : Type 0 where
    no_fields : Fields
    field : String → Json → Fields → Fields

-- `d.get(key)`
unfoldable pub get_field : String → Fields → Option Json
get_field key no_fields = none
get_field key (field k v rest) = if k == key then some v else get_field key rest

-- `d[key] = value`
unfoldable pub set_field : String → Json → Fields → Fields
set_field key value no_fields = field key value no_fields
set_field key value (field k v rest) =
    let rest' = set_field key value rest in if k == key then field k value rest else field k v rest'
