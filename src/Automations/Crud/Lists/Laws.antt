-- ===== src/Automations/Crud/Lists/Laws.antt =====
-- Sorting and paging lose no row of a short list.
use autom.Prelude.{
  ℕ, ◌≤◌, zero, suc, ◌≡◌, refl, ap, Bool, List, [], ◌∷◌, arith, length, All, Bool-cases, inl, inr,
}
use autom.Automations.Crud.Lists.{limit, insert, order_by}

module _ {A : Type 0} (P : A → Type 0) (r : A → A → Bool) where
  All-uninsert : (x : A) (ys : List A) → All P (insert r x ys) → All P (x ∷ ys)
  unfolding insert
  All-uninsert x [] h = h
  All-uninsert x (y ∷ ys) h = elim (Bool-cases (r x y)) [
    | inl b ↦ rw b at h
    | inr n ↦ let h' = rw n at h in let rest = All-uninsert x ys h'.1 in (rest.0, (h'.0, rest.1))
  ]

  pub All-unorder : (xs : List A) → All P (order_by r xs) → All P xs
  unfolding order_by
  All-unorder [] h = tt
  All-unorder (x ∷ xs) h = let h' = All-uninsert x (order_by r xs) h in (h'.0, All-unorder xs h'.1)

length-insert :
    {A : Type 0} (r : A → A → Bool) (x : A) (ys : List A) → length (insert r x ys) ≡ suc (length ys)
unfolding insert
length-insert r x [] = refl
length-insert r x (y ∷ ys) = let rest = length-insert r x ys in ground arith

pub length-order_by :
    {A : Type 0} (r : A → A → Bool) (xs : List A) → length (order_by r xs) ≡ length xs
unfolding order_by
length-order_by r [] = refl
length-order_by r (x ∷ xs) =
    let rest = length-order_by r xs in let made = length-insert r x (order_by r xs) in omega arith

pub limit-all : {A : Type 0} (n : ℕ) (xs : List A) → length xs ≤ n → limit n xs ≡ xs
limit-all zero [] h = refl
limit-all zero (x ∷ xs) h = absurd (omega arith)
limit-all (suc n) [] h = refl
limit-all (suc n) (x ∷ xs) h = ap (λ ys. x ∷ ys) (limit-all n xs (omega arith))
