-- ===== src/Accounts/Tables/Laws.antt =====
-- What holds of the table of linked accounts: no two rows conflict, and the credentials of every
-- row are of the class that belongs to its scheme; the writes keep it.
use autom.Prelude.{
  String, ◌≡◌, refl, subst, Bool, true, false, some, List, [], ◌∷◌, ◌==◌, arith, All, keep, find,
  Bool-cases, inl, inr, eq_iff,
}
use autom.Prelude.Rows.{update_row, remove_row}
use autom.Prelude.Every.{some-eq, All-map, find-All, All-keep, All-update_row, All-remove_row}
use autom.Prelude.Result.{ok}
use autom.Accounts.{SecurityCredentials, LinkedAccount, Store}
use autom.Accounts.Credentials.{model_validate}
use autom.Accounts.Tables.{conflicts}

abbrev pub IsUnique : List LinkedAccount → Type 0
IsUnique [] = Unit
IsUnique (a ∷ rest) = All (λ b. conflicts a b ≡ false) rest × IsUnique rest

-- The stored dictionary is read by the class of the scheme.
abbrev pub IsTyped : LinkedAccount → Type 0
IsTyped a =
    (c : SecurityCredentials) × (model_validate a.security_scheme a.security_credentials ≡ ok c)

abbrev pub IsSound : Store → Type 0
IsSound store = IsUnique store.accounts × All IsTyped store.accounts

-- The row that a query found is the one row with its id.
abbrev pub IsOnly : LinkedAccount → LinkedAccount → Type 0
IsOnly r a = (a.id == r.id) ≡ true → a ≡ r

conflicts-id : (a b : LinkedAccount) → conflicts a b ≡ false → (a.id == b.id) ≡ false
conflicts-id a b h = ground arith

IsOnly-tail :
    (a : LinkedAccount) (rest : List LinkedAccount)
    → All (λ b. conflicts a b ≡ false) rest
    → All (IsOnly a) rest
IsOnly-tail a rest h =
    All-map rest
      (λ b c e. absurd (ground (arith, conflicts-id a b c, eq_iff a.id b.id, eq_iff b.id a.id))) h

pub find-IsOnly :
    (p : LinkedAccount → Bool) (rows : List LinkedAccount) (r : LinkedAccount)
    → IsUnique rows
    → find p rows ≡ some r
    → All (IsOnly r) rows
find-IsOnly p [] r u h = tt
find-IsOnly p (a ∷ rest) r u h = elim (Bool-cases (p a)) [
  | inl y ↦
      subst (λ x. All (IsOnly x) (a ∷ rest)) (some-eq (rw y at h))
        ((λ e. refl), IsOnly-tail a rest u.0)
  | inr n ↦
      let found = rw n at h in
      (
        (λ e. absurd (
            ground
              (arith, conflicts-id a r (find-All (λ b. conflicts a b ≡ false) p rest u.0 found)))),
        find-IsOnly p rest r u.1 found,
      )
]

-- A change of the rows that keeps the columns of the constraints.
abbrev pub KeepsKeys : (LinkedAccount → LinkedAccount) → Type 0
KeepsKeys f =
    (a : LinkedAccount)
    → ((f a).id ≡ a.id) × ((f a).user_id ≡ a.user_id) × ((f a).app_id ≡ a.app_id)

conflicts-update :
    (f : LinkedAccount → LinkedAccount)
    → KeepsKeys f
    → (a b : LinkedAccount)
    → (conflicts (f a) b ≡ conflicts a b) × (conflicts a (f b) ≡ conflicts a b)
conflicts-update f k a b =
    let ka = k a in let kb = k b in (rw (ka.0, ka.1, ka.2) refl, rw (kb.0, kb.1, kb.2) refl)

pub IsUnique-update_row :
    (id : String) (f : LinkedAccount → LinkedAccount) (rows : List LinkedAccount)
    → KeepsKeys f
    → IsUnique rows
    → IsUnique (update_row (λ a. a.id) id f rows)
unfolding update_row
IsUnique-update_row id f [] k u = tt
IsUnique-update_row id f (a ∷ rest) k u =
    let kept =
      All-update_row (λ a. a.id) (λ b. conflicts a b ≡ false) (λ b. conflicts a b ≡ false) id f rest
        (λ b e c. rw (conflicts-update f k a b).1 c) (λ b c. c) u.0 in
    let after = IsUnique-update_row id f rest k u.1 in
    elim (Bool-cases (a.id == id)) [
      | inl y ↦ rw y (
        All-map (update_row (λ a. a.id) id f rest) (λ b c. rw (conflicts-update f k a b).0 c) kept,
        after,
      )
      | inr n ↦ rw n (kept, after)
    ]

pub IsUnique-remove_row :
    (id : String) (rows : List LinkedAccount)
    → IsUnique rows
    → IsUnique (remove_row (λ a. a.id) id rows)
unfolding remove_row
IsUnique-remove_row id [] u = tt
IsUnique-remove_row id (a ∷ rest) u = elim (Bool-cases (a.id == id)) [
  | inl y ↦ rw y (IsUnique-remove_row id rest u.1)
  | inr n ↦ rw n (
    All-remove_row (λ b. b.id) (λ b. conflicts a b ≡ false) id rest u.0,
    IsUnique-remove_row id rest u.1,
  )
]

pub IsUnique-keep :
    (p : LinkedAccount → Bool) (rows : List LinkedAccount) → IsUnique rows → IsUnique (keep p rows)
IsUnique-keep p [] u = tt
IsUnique-keep p (a ∷ rest) u = elim (Bool-cases (p a)) [
  | inl y ↦ rw y (All-keep (λ b. conflicts a b ≡ false) p rest u.0, IsUnique-keep p rest u.1)
  | inr n ↦ rw n (IsUnique-keep p rest u.1)
]
