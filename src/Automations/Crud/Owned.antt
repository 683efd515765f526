-- ===== src/Automations/Crud/Owned.antt =====
-- Which linked accounts the validation lets through: those that are there and the user's own.
use autom.Prelude.{
  String, ◌≡◌, refl, subst, Bool, true, false, not, ◌&&◌, List, [], ◌∷◌, ◌==◌, arith, keep, any,
  member, as_set, is_subset, get_or, All, Bool-cases, inl, inr, eq_refl,
}
use autom.Prelude.Every.{All-append, All-keep}
use autom.Prelude.Result.{ok, value_error, >>=-eq-ok, ok-eq, raise_if-ok}
use autom.Accounts.{LinkedAccount}
use autom.Automations.{Automation, Db}
use autom.Automations.Crud.{
  account_ids, validate_and_fetch_linked_accounts, Field, unset, set, update_links,
}

-- The account of an id is there and belongs to the user.
abbrev pub owns : List LinkedAccount → String → String → Bool
owns accounts user_id id = any (λ la. la.id == id && la.user_id == user_id) accounts

module _ (accounts : List LinkedAccount) where
  -- Every account that an automation is linked to is there and belongs to its owner.
  abbrev pub OwnsLinks : Automation → Type 0
  OwnsLinks a = All (λ id. owns accounts a.user_id id ≡ true) a.linked_account_ids

  abbrev pub AreLinked : Db → Type 0
  AreLinked db = All OwnsLinks db.automations

linked_owned :
    (p : LinkedAccount → Bool) (user_id id : String) (accounts : List LinkedAccount)
    → any (λ la. not (la.user_id == user_id)) (keep p accounts) ≡ false
    → member id (account_ids (keep p accounts)) ≡ true
    → owns accounts user_id id ≡ true
linked_owned p user_id id [] h m = cc
linked_owned p user_id id (la ∷ rest) h m = elim (Bool-cases (p la)) [
  | inl y ↦
      let h' = rw (keep, y) at h in
      let m' = rw (keep, y) at m in
      elim (Bool-cases (la.id == id)) [
        | inl same ↦ ground arith
        | inr apart ↦ ground (arith, linked_owned p user_id id rest (ground arith) (ground arith))
      ]
  | inr n ↦ ground (arith, linked_owned p user_id id rest (rw (keep, n) at h) (rw (keep, n) at m))
]

members_owned :
    (p : LinkedAccount → Bool) (user_id : String) (accounts : List LinkedAccount)
    (ids : List String)
    → any (λ la. not (la.user_id == user_id)) (keep p accounts) ≡ false
    → is_subset ids (account_ids (keep p accounts)) ≡ true
    → All (λ id. owns accounts user_id id ≡ true) ids
members_owned p user_id accounts [] h s = tt
members_owned p user_id accounts (id ∷ ids) h s =
    elim (Bool-cases (member id (account_ids (keep p accounts)))) [
      | inl m ↦ (
        linked_owned p user_id id accounts h m,
        members_owned p user_id accounts ids h (rw (is_subset, m) at s),
      )
      | inr n ↦ absurd (ground (arith, rw (is_subset, n) at s))
    ]

is_subset-cons :
    (y : String) (xs ys : List String) → is_subset xs ys ≡ true → is_subset xs (y ∷ ys) ≡ true
is_subset-cons y [] ys h = refl
is_subset-cons y (x ∷ xs) ys h = elim (Bool-cases (member x ys)) [
  | inl m ↦ ground (arith, is_subset-cons y xs ys (rw (is_subset, m) at h))
  | inr n ↦ absurd (ground (arith, rw (is_subset, n) at h))
]

is_subset_refl : (xs : List String) → is_subset xs xs ≡ true
is_subset_refl [] = refl
is_subset_refl (x ∷ xs) = rw (eq_refl x) (is_subset-cons x xs xs (is_subset_refl xs))

module _ (accounts : List LinkedAccount) where
  -- What the validation lets through: the ids asked for and the accounts it fetched.
  pub validate_lem :
      (user_id : String) (ids : List String) (linked : List LinkedAccount)
      → validate_and_fetch_linked_accounts accounts user_id ids ≡ ok linked
      → All (λ id. owns accounts user_id id ≡ true) ids
        × All (λ id. owns accounts user_id id ≡ true) (account_ids linked)
  unfolding validate_and_fetch_linked_accounts
  validate_lem user_id ids linked h =
      let p = λ (la : LinkedAccount). member la.id ids in
      let found = keep p accounts in
      let (there, more) =
        raise_if-ok (not (is_subset ids (account_ids found))) value_error _ linked h in
      let (owned, same) =
        raise_if-ok (any (λ la. not (la.user_id == user_id)) found) value_error _ linked more in
      (
        members_owned p user_id accounts ids owned (ground (arith, there)),
        subst (λ x. All (λ id. owns accounts user_id id ≡ true) (account_ids x)) (ok-eq same)
            (members_owned p user_id accounts (account_ids found) owned
              (is_subset_refl (account_ids found))),
      )

  pub update_links-owned :
      (ids : Field (List String)) (a : Automation) (linked : List String)
      → update_links accounts ids a ≡ ok linked
      → OwnsLinks accounts a
      → All (λ id. owns accounts a.user_id id ≡ true) linked
  update_links-owned unset a linked h owned =
      subst (λ x. All (λ id. owns accounts a.user_id id ≡ true) x) (ok-eq h) owned
  update_links-owned (set ids) a linked h owned =
      let new_ids = get_or ids [] in
      let owns_it = λ (id : String). owns accounts a.user_id id ≡ true in
      let (found, f, made) =
        >>=-eq-ok (validate_and_fetch_linked_accounts accounts a.user_id (as_set new_ids)) _ h in
      subst (λ x. All owns_it x) (ok-eq made)
        (All-append owns_it (keep (λ id. member id new_ids) a.linked_account_ids)
          (keep (λ id. not (member id a.linked_account_ids)) (as_set new_ids))
          (All-keep owns_it (λ id. not (member id a.linked_account_ids)) (as_set new_ids)
            (validate_lem a.user_id (as_set new_ids) found f).0)
          (All-keep owns_it (λ id. member id new_ids) a.linked_account_ids owned))
