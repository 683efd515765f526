-- ===== src/Accounts/Links.antt =====
-- The linked accounts seen as a map from a user and an app to a scheme and its credentials, and the
-- writes of the table as changes of that map.
use autom.Prelude.{
  String, ◌≡◌, refl, subst, ap, Bool, true, false, not, ◌&&◌, Option, none, some, List, [], ◌∷◌,
  ◌==◌, arith, All, keep, find, any, is_some, Bool-cases, Option-cases, inl, inr, eq_iff, eq_refl,
  if◌then◌else◌,
}
use mathlib.Core.Option
use autom.Prelude.Rows.{update_row, remove_row}
use autom.Prelude.Every.{
  some-eq, All-map, any-eq-false, find-eq, find-All, find-none, find-kept, find-dropped,
  find-update_row, remove_row-keep,
}
use autom.Accounts.{SecurityScheme, Dict, LinkedAccount, Store, App}
use autom.Accounts.Writes.{
  KeepsLink, Write, account_created, credentials_set, columns_set, account_removed, app_cleared,
  none_written,
}
use autom.Accounts.Credentials.{model_dump, scheme_of}
use autom.Accounts.Manager.{with_credentials}
use autom.Accounts.Tables.{conflicts, is_of, is_of_app, new_account}
use autom.Accounts.Tables.Laws.{IsUnique, IsOnly, find-IsOnly}

abbrev pub Links : Type 0
Links = String → String → Option (SecurityScheme × Dict)

abbrev pub entry_of : LinkedAccount → SecurityScheme × Dict
entry_of a = (a.security_scheme, a.security_credentials)

abbrev pub links_of : List LinkedAccount → Links
links_of rows user_id app_id = Option.map entry_of (find (is_of user_id app_id) rows)

-- The map that the table stands for.
abbrev pub links : Store → Links
links store = links_of store.accounts

is_of-sym : (a b : LinkedAccount) → is_of a.user_id a.app_id b ≡ is_of b.user_id b.app_id a
is_of-sym a b = ground (
  arith,
  eq_iff a.user_id b.user_id,
  eq_iff a.app_id b.app_id,
  eq_iff b.user_id a.user_id,
  eq_iff b.app_id a.app_id,
)

-- Two rows of the same user and app.
is_of_trans :
    (user_id app_id : String) (a b : LinkedAccount)
    → is_of user_id app_id a ≡ true
    → is_of user_id app_id b ≡ true
    → is_of a.user_id a.app_id b ≡ true
is_of_trans user_id app_id a b ha hb = ground (
  arith,
  eq_iff a.user_id user_id,
  eq_iff a.app_id app_id,
  eq_iff b.user_id user_id,
  eq_iff b.app_id app_id,
  eq_iff b.user_id a.user_id,
  eq_iff b.app_id a.app_id,
)

conflicts-is_of : (a b : LinkedAccount) → conflicts a b ≡ false → is_of a.user_id a.app_id b ≡ false
conflicts-is_of a b h = ground arith

-- The row that a search found is the one row of its user and app.
abbrev IsAlone : LinkedAccount → LinkedAccount → Type 0
IsAlone r a = is_of r.user_id r.app_id a ≡ true → a ≡ r

IsAlone-tail :
    (a : LinkedAccount) (rest : List LinkedAccount)
    → All (λ b. conflicts a b ≡ false) rest
    → All (IsAlone a) rest
IsAlone-tail a rest h = All-map rest (λ b c e. absurd (ground (arith, conflicts-is_of a b c))) h

find-IsAlone :
    (p : LinkedAccount → Bool) (rows : List LinkedAccount) (r : LinkedAccount)
    → IsUnique rows
    → find p rows ≡ some r
    → All (IsAlone r) rows
find-IsAlone p [] r u h = tt
find-IsAlone p (a ∷ rest) r u h = elim (Bool-cases (p a)) [
  | inl y ↦
      subst (λ x. All (IsAlone x) (a ∷ rest)) (some-eq (rw y at h))
        ((λ e. refl), IsAlone-tail a rest u.0)
  | inr n ↦
      let found = rw n at h in
      let apart = conflicts-is_of a r (find-All (λ b. conflicts a b ≡ false) p rest u.0 found) in
      ((λ e. absurd (ground (arith, is_of-sym a r))), find-IsAlone p rest r u.1 found)
]

module _ (p : LinkedAccount → Bool) (rows : List LinkedAccount) (r : LinkedAccount)
    (u : IsUnique rows) (found : find p rows ≡ some r) where
  -- A row of the same key as the row that was found is that row, and so is one of the same id.
  same_key :
      (user_id app_id : String)
      → is_of user_id app_id r ≡ true
      → All (λ a. is_of user_id app_id a ≡ true → a ≡ r) rows
  same_key user_id app_id k =
      All-map rows (λ a alone h. alone (is_of_trans user_id app_id r a k h))
        (find-IsAlone p rows r u found)

  other_row :
      (user_id app_id : String)
      → is_of user_id app_id r ≡ false
      → (a : LinkedAccount) → IsOnly r a
      → is_of user_id app_id a ≡ true
      → not (a.id == r.id) ≡ true
  other_row user_id app_id n a same h = elim (Bool-cases (a.id == r.id)) [
    | inl i ↦ absurd (ground (arith, subst (λ x. is_of user_id app_id x ≡ true) (same i) h))
    | inr d ↦ rw d refl
  ]

  links-update_row :
      (f : LinkedAccount → LinkedAccount)
      → ((a : LinkedAccount) → ((f a).user_id ≡ a.user_id) × ((f a).app_id ≡ a.app_id))
      → (user_id app_id : String)
      → links_of (update_row (λ a. a.id) r.id f rows) user_id app_id
        ≡ (if is_of user_id app_id r then some (entry_of (f r)) else links_of rows user_id app_id)
  links-update_row f keys user_id app_id =
      rw
        (find-update_row (λ a. a.id) (is_of user_id app_id) r.id f rows
          (λ a. rw ((keys a).0, (keys a).1) refl))
        (elim (Option-cases (find (is_of user_id app_id) rows)) [
          | inl gone ↦
              let apart =
                find-All (λ a. is_of user_id app_id a ≡ false) p rows
                  (find-none (is_of user_id app_id) rows gone) found in
              rw (gone, apart) refl
          | inr (a, here) ↦ elim (Bool-cases (is_of user_id app_id r)) [
            | inl y ↦
                let same =
                  find-All (λ b. is_of user_id app_id b ≡ true → b ≡ r) (is_of user_id app_id) rows
                    (same_key user_id app_id y) here (find-eq (is_of user_id app_id) rows here) in
                rw (here, y, same, eq_refl r.id) refl
            | inr n ↦
                let apart =
                  other_row user_id app_id n a
                    (find-All (IsOnly r) (is_of user_id app_id) rows (find-IsOnly p rows r u found)
                      here)
                    (find-eq (is_of user_id app_id) rows here) in
                rw (here, n) (ground (arith, apart))
          ]
        ])

  links-remove_row :
      (user_id app_id : String)
      → links_of (remove_row (λ a. a.id) r.id rows) user_id app_id
        ≡ (if is_of user_id app_id r then none else links_of rows user_id app_id)
  links-remove_row user_id app_id =
      let kept = λ (a : LinkedAccount). not (a.id == r.id) in
      rw (remove_row-keep (λ a. a.id) r.id rows) (elim (Bool-cases (is_of user_id app_id r)) [
        | inl y ↦
            rw
              (
                y,
                find-dropped (is_of user_id app_id) kept rows (
                    All-map rows (λ a same h. ground (arith, same h, eq_iff a.id r.id))
                      (same_key user_id app_id y)),
              )
              refl
        | inr n ↦
            rw
              (
                n,
                find-kept (is_of user_id app_id) kept rows (
                    All-map rows (λ a same h. other_row user_id app_id n a same h)
                      (find-IsOnly p rows r u found)),
              )
              refl
      ])

-- What the map may do in one step: an entry is added where there is none, its credentials are
-- replaced and its scheme stays, it is account_removed, or those of an app are; or nothing happens.
pub data Op : Links → Links → Type 0 where
  inserted :
      (user_id app_id : String) (entry : SecurityScheme × Dict) (M M' : Links)
      → M user_id app_id ≡ none
      → ((u a : String) → M' u a ≡ (if user_id == u && app_id == a then some entry else M u a))
      → Op M M'
  replaced :
      (user_id app_id : String) (scheme : SecurityScheme) (old new : Dict) (M M' : Links)
      → M user_id app_id ≡ some (scheme, old)
      → ((u a : String)
          → M' u a ≡ (if user_id == u && app_id == a then some (scheme, new) else M u a))
      → Op M M'
  deleted :
      (user_id app_id : String) (M M' : Links)
      → is_some (M user_id app_id) ≡ true
      → ((u a : String) → M' u a ≡ (if user_id == u && app_id == a then none else M u a))
      → Op M M'
  app_deleted :
      (app_id : String) (M M' : Links)
      → ((u a : String) → M' u a ≡ (if app_id == a then none else M u a))
      → Op M M'
  stayed : (M M' : Links) → ((u a : String) → M' u a ≡ M u a) → Op M M'

links-found :
    (p : LinkedAccount → Bool) (rows : List LinkedAccount) (r : LinkedAccount)
    → IsUnique rows
    → find p rows ≡ some r
    → links_of rows r.user_id r.app_id ≡ some (entry_of r)
links-found p rows r u found = elim (Option-cases (find (is_of r.user_id r.app_id) rows)) [
  | inl gone ↦ absurd (
      ground (
        arith,
        eq_refl r.user_id,
        eq_refl r.app_id,
        find-All (λ a. is_of r.user_id r.app_id a ≡ false) p rows
            (find-none (is_of r.user_id r.app_id) rows gone) found,
      ))
  | inr (a, here) ↦
      let same =
        find-All (IsAlone r) (is_of r.user_id r.app_id) rows (find-IsAlone p rows r u found) here
          (find-eq (is_of r.user_id r.app_id) rows here) in
      rw (here, same) refl
]

links-free :
    (a : LinkedAccount) (rows : List LinkedAccount)
    → any (conflicts a) rows ≡ false
    → links_of rows a.user_id a.app_id ≡ none
links-free a rows free = elim (Option-cases (find (is_of a.user_id a.app_id) rows)) [
  | inl gone ↦ rw gone refl
  | inr (b, here) ↦ absurd (
      ground (
        arith,
        find-eq (is_of a.user_id a.app_id) rows here,
        conflicts-is_of a b (
            find-All (λ b. conflicts a b ≡ false) (is_of a.user_id a.app_id) rows
              (any-eq-false (conflicts a) rows free) here),
      ))
]

columns-links :
    (id : String) (f : LinkedAccount → LinkedAccount) (rows : List LinkedAccount)
    → KeepsLink f
    → (user_id app_id : String)
    → links_of (update_row (λ a. a.id) id f rows) user_id app_id ≡ links_of rows user_id app_id
columns-links id f rows k user_id app_id =
    rw
      (find-update_row (λ a. a.id) (is_of user_id app_id) id f rows
        (λ a. rw ((k a).1, (k a).2) refl))
      (elim (Option-cases (find (is_of user_id app_id) rows)) [
        | inl gone ↦ rw gone refl
        | inr (a, here) ↦ rw here (elim (Bool-cases (a.id == id)) [
          | inl y ↦ rw (y, (k a).3, (k a).4) refl
          | inr n ↦ rw n refl
        ])
      ])

All-true : (rows : List LinkedAccount) → All (λ a. Unit {0}) rows
All-true [] = tt
All-true (a ∷ rows) = (tt, All-true rows)

app_cleared-Op :
    (app : Option App) (s : Store)
    → Op (links s) (links_of (keep (λ a. not (is_of_app app a)) s.accounts))
app_cleared-Op none s = stayed _ _ (λ u a. ap (Option.map entry_of) (
    find-kept (is_of u a) (λ b. true) s.accounts
      (All-map s.accounts (λ b t h. refl) (All-true s.accounts))))
app_cleared-Op (some app) s =
    app_deleted app.id (links s) (links_of (keep (λ b. not (b.app_id == app.id)) s.accounts))
      (λ u a. elim (Bool-cases (app.id == a)) [
        | inl y ↦
            rw
              (
                y,
                find-dropped (is_of u a) (λ b. not (b.app_id == app.id)) s.accounts
                    (All-map s.accounts
                      (λ b t h.
                        ground (arith, eq_iff app.id a, eq_iff b.app_id a, eq_iff b.app_id app.id))
                      (All-true s.accounts)),
              )
              refl
        | inr n ↦
            rw
              (
                n,
                find-kept (is_of u a) (λ b. not (b.app_id == app.id)) s.accounts
                    (All-map s.accounts
                      (λ b t h.
                        ground (arith, eq_iff app.id a, eq_iff b.app_id a, eq_iff b.app_id app.id))
                      (All-true s.accounts)),
              )
              refl
      ])

-- Every write of a table without conflicts is one of these steps of its map.
pub Write-Op : (s t : Store) → Write s t → IsUnique s.accounts → Op (links s) (links t)
Write-Op _ _ (account_created new_id user_id app_id c s free) u =
    let a = new_account new_id user_id app_id (scheme_of c) c in
    inserted user_id app_id (entry_of a) _ _ (links-free a s.accounts free) (λ x y. ground arith)
Write-Op _ _ (credentials_set p account c s found same) u =
    replaced account.user_id account.app_id account.security_scheme account.security_credentials
      (model_dump c) _ _ (links-found p s.accounts account u found)
      (links-update_row p s.accounts account u found (with_credentials c) (λ a. (refl, refl)))
Write-Op _ _ (columns_set id f s k) u = stayed _ _ (λ x y. columns-links id f s.accounts k x y)
Write-Op _ _ (account_removed p account s found) u =
    deleted account.user_id account.app_id _ _ (rw (links-found p s.accounts account u found) refl)
      (links-remove_row p s.accounts account u found)
Write-Op _ _ (app_cleared app s) u = app_cleared-Op app s
Write-Op _ _ (none_written apps configurations s) u = stayed _ _ (λ x y. refl)
