-- ===== src/Automations/Crud/Lists.antt =====
-- `list_user_automations` of aci/common/db/crud/automations.py: the automations of a user by
-- priority, a page of them.
pub mod Laws
use autom.Prelude.{
  ℕ, zero, suc, String, Bool, true, false, not, ◌&&◌, ◌||◌, List, [], ◌∷◌, ◌==◌, keep, leb,
  if◌then◌else◌,
}
use autom.Automations.{Automation, Db}

module _ {ℓ} {A : Type ℓ} where
  -- `.limit(n)` and `.offset(n)`
  abbrev pub limit : ℕ → List A → List A
  limit zero xs = []
  limit (suc n) [] = []
  limit (suc n) (x ∷ xs) = x ∷ limit n xs

  abbrev pub offset : ℕ → List A → List A
  offset zero xs = xs
  offset (suc n) [] = []
  offset (suc n) (x ∷ xs) = offset n xs

  -- Sorting by a relation; rows that are equal keep their order.
  unfoldable pub insert : (A → A → Bool) → A → List A → List A
  insert before x [] = x ∷ []
  insert before x (y ∷ ys) =
      let rest = insert before x ys in if before x y then x ∷ y ∷ ys else y ∷ rest

  unfoldable pub order_by : (A → A → Bool) → List A → List A
  order_by before [] = []
  order_by before (x ∷ xs) = insert before x (order_by before xs)

-- `.order_by(active.desc(), is_recurring.desc(), created_at.desc())`, with the column `created_at`
-- given by the id.
abbrev pub desc : Bool → Bool → Bool → Bool
desc true false rest = true
desc false true rest = false
desc _ _ rest = rest

abbrev pub before : (String → ℕ) → Automation → Automation → Bool
before created_at a b =
    desc a.active b.active
      (desc a.is_recurring b.is_recurring (leb (created_at b.id) (created_at a.id)))

unfoldable pub list_user_automations : (String → ℕ) → String → ℕ → ℕ → Db → List Automation
list_user_automations created_at user_id count skip db =
    limit count
      (offset skip (order_by (before created_at) (keep (λ a. a.user_id == user_id) db.automations)))
