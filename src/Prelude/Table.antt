-- ===== src/Prelude/Table.antt =====
-- A table of the database, as the program uses it: a row is fetched by its primary key and written
-- back. The rows lie in PostgreSQL behind SQLAlchemy, so the table is a parameter of the code that
-- uses it, and `IsLawful` states what that code relies on.
use autom.Prelude.Tests.{if◌then◌else◌}
use Prim.Native.String.{String}
use mathlib.Core.Path.{◌≡◌, refl}
use mathlib.Core.Option.{Option, none, some}
use mathlib.Core.List.{List, [], ◌∷◌}
use text.Mathlib.Text.{◌==◌}

pub record Table (Row : Type 0) : Type 1 where
  pub Rows : Type 0
  -- session.get(Model, id), session.query(Model).filter(Model.id == id).first()
  pub find : String → Rows → Option Row
  -- a row that is new or was changed, after the commit
  pub save : String → Row → Rows → Rows

pub record IsLawful {Row : Type 0} (T : Table Row) : Type 0 where
  pub find-save :
      (k j : String) (r : Row) (t : T.Rows)
      → T.find j (T.save k r t) ≡ (if k == j then some r else T.find j t)

-- A table in memory, which shows that the law can be met.
module _ {Row : Type 0} where
  unfoldable pub lookup : String → List (String × Row) → Option Row
  lookup j [] = none
  lookup j ((k, r) ∷ t) = if k == j then some r else lookup j t

  unfoldable pub in_memory : Table Row
  unfolding lookup
  in_memory = record { Rows = List (String × Row); find = lookup; save = λ k r t. (k, r) ∷ t }

  pub in_memory-IsLawful : IsLawful in_memory
  unfolding in_memory lookup
  in_memory-IsLawful = record { find-save = λ k j r t. refl }
