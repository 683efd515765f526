-- ===== src/Prelude/Every.antt =====
-- Predicates of every entry of a list, under the searches and changes of lists and rows.
use Prim.Native.String.{String}
use mathlib.Core.Path.{◌≡◌, refl, subst}
use mathlib.Core.Bool.{Bool, true, false, not}
use mathlib.Core.Logic.{inl, inr}
use mathlib.Core.Option.{Option, none, some}
use mathlib.Core.Option
use mathlib.Core.List.{List, [], ◌∷◌, ◌++◌}
use native.Mathlib.Omega.{arith}
use text.Mathlib.Text.{◌==◌}
use autom.Prelude.Tests.{if◌then◌else◌, Bool-cases}
use autom.Prelude.Lists.{keep, find, any, All}
use autom.Prelude.Rows.{find_row, update_row, remove_row}

module _ {ℓ} {A : Type ℓ} where
  pub some-eq : {x y : A} → some x ≡ some y → x ≡ y
  some-eq h = cc

  pub All-map {κ κ'} :
      {P : A → Type κ} {Q : A → Type κ'} (xs : List A) → ((x : A) → P x → Q x) → All P xs → All Q xs
  All-map [] f h = tt
  All-map (x ∷ xs) f h = (f x h.0, All-map xs f h.1)

  pub All-and {κ κ'} :
      (P : A → Type κ) (Q : A → Type κ') (xs : List A)
      → All P xs
      → All Q xs
      → All (λ x. P x × Q x) xs
  All-and P Q [] h k = tt
  All-and P Q (x ∷ xs) h k = ((h.0, k.0), All-and P Q xs h.1 k.1)

  pub any-eq-false : (p : A → Bool) (xs : List A) → any p xs ≡ false → All (λ x. p x ≡ false) xs
  any-eq-false p [] h = tt
  any-eq-false p (x ∷ xs) h = elim (Bool-cases (p x)) [
    | inl y ↦ absurd (ground arith)
    | inr n ↦ (n, any-eq-false p xs (rw n at h))
  ]

  -- The entry that is found satisfies the test, and what every entry satisfies.
  pub find-eq : (p : A → Bool) (xs : List A) {x : A} → find p xs ≡ some x → p x ≡ true
  find-eq p [] h = cc
  find-eq p (x ∷ xs) h = elim (Bool-cases (p x)) [
    | inl y ↦ ground arith
    | inr n ↦ find-eq p xs (rw n at h)
  ]

  pub find-All {κ} :
      (P : A → Type κ) (p : A → Bool) (xs : List A) {x : A} → All P xs → find p xs ≡ some x → P x
  find-All P p [] all h = cc
  find-All P p (x ∷ xs) all h = elim (Bool-cases (p x)) [
    | inl y ↦ subst P (some-eq (rw y at h)) all.0
    | inr n ↦ find-All P p xs all.1 (rw n at h)
  ]

  pub All-keep {κ} : (P : A → Type κ) (p : A → Bool) (xs : List A) → All P xs → All P (keep p xs)
  All-keep P p [] h = tt
  All-keep P p (x ∷ xs) h = elim (Bool-cases (p x)) [
    | inl y ↦ rw y (h.0, All-keep P p xs h.1)
    | inr n ↦ rw n (All-keep P p xs h.1)
  ]

  pub find-none : (p : A → Bool) (xs : List A) → find p xs ≡ none → All (λ x. p x ≡ false) xs
  find-none p [] h = tt
  find-none p (x ∷ xs) h = elim (Bool-cases (p x)) [
    | inl y ↦ absurd (ground arith)
    | inr n ↦ (n, find-none p xs (rw n at h))
  ]

  pub All-append {κ} :
      (P : A → Type κ) (front back : List A) → All P back → All P front → All P (front ++ back)
  All-append P [] back b f = b
  All-append P (a ∷ front) back b f = (f.0, All-append P front back b f.1)

  pub All-unkeep {κ} :
      (P : A → Type κ) (p : A → Bool) (xs : List A)
      → All P (keep p xs)
      → All (λ x. p x ≡ true → P x) xs
  All-unkeep P p [] h = tt
  All-unkeep P p (x ∷ xs) h = elim (Bool-cases (p x)) [
    | inl y ↦ let h' = rw (keep, y) at h in ((λ e. h'.0), All-unkeep P p xs h'.1)
    | inr n ↦ let h' = rw (keep, n) at h in ((λ e. absurd (ground arith)), All-unkeep P p xs h')
  ]

  pub All-of {κ} : {P : A → Type κ} → ((x : A) → P x) → (xs : List A) → All P xs
  All-of h [] = tt
  All-of h (x ∷ xs) = (h x, All-of h xs)

  -- What a filter keeps passes its test.
  pub keep-All : (p : A → Bool) (xs : List A) → All (λ x. p x ≡ true) (keep p xs)
  keep-All p [] = tt
  keep-All p (x ∷ xs) = elim (Bool-cases (p x)) [
    | inl y ↦ rw y (y, keep-All p xs)
    | inr n ↦ rw n (keep-All p xs)
  ]

  pub keep-All-same :
      (p q : A → Bool) (xs : List A) → All (λ x. p x ≡ q x) xs → keep p xs ≡ keep q xs
  keep-All-same p q [] h = refl
  keep-All-same p q (x ∷ xs) h = rw (h.0, keep-All-same p q xs h.1) refl

  pub keep-same : {p q : A → Bool} → ((x : A) → p x ≡ q x) → (xs : List A) → keep p xs ≡ keep q xs
  keep-same h [] = refl
  keep-same h (x ∷ xs) = rw (h x, keep-same h xs) refl

  -- A search after a filter that keeps, or that drops, what is searched.
  pub find-kept :
      (q p : A → Bool) (xs : List A)
      → All (λ x. q x ≡ true → p x ≡ true) xs
      → find q (keep p xs) ≡ find q xs
  find-kept q p [] h = refl
  find-kept q p (x ∷ xs) h = elim (Bool-cases (q x)) [
    | inl y ↦ rw (h.0 y, y) refl
    | inr n ↦ elim (Bool-cases (p x)) [
      | inl k ↦ rw (k, n) (find-kept q p xs h.1)
      | inr d ↦ rw (d, n) (find-kept q p xs h.1)
    ]
  ]

  pub find-dropped :
      (q p : A → Bool) (xs : List A)
      → All (λ x. q x ≡ true → p x ≡ false) xs
      → find q (keep p xs) ≡ none
  find-dropped q p [] h = refl
  find-dropped q p (x ∷ xs) h = elim (Bool-cases (p x)) [
    | inl k ↦ elim (Bool-cases (q x)) [
      | inl y ↦ absurd (ground (arith, h.0 y))
      | inr n ↦ rw (k, n) (find-dropped q p xs h.1)
    ]
    | inr d ↦ rw d (find-dropped q p xs h.1)
  ]

  module _ (key : A → String) where
    pub remove_row-keep :
        (k : String) (rows : List A) → remove_row key k rows ≡ keep (λ r. not (key r == k)) rows
    unfolding remove_row
    remove_row-keep k [] = refl
    remove_row-keep k (r ∷ rows) = let rest = remove_row-keep k rows in ground (arith, rest)

    pub find_row-All {κ} :
        (P : A → Type κ) (k : String) (rows : List A) {r : A}
        → All P rows
        → find_row key k rows ≡ some r
        → P r
    unfolding find_row
    find_row-All P k [] all h = cc
    find_row-All P k (r ∷ rows) all h = elim (Bool-cases (key r == k)) [
      | inl y ↦ subst P (some-eq (rw y at h)) all.0
      | inr n ↦ find_row-All P k rows all.1 (rw n at h)
    ]

    -- A search for what the change does not touch.
    pub find-update_row :
        (q : A → Bool) (k : String) (f : A → A) (rows : List A)
        → ((a : A) → q (f a) ≡ q a)
        → find q (update_row key k f rows)
          ≡ Option.map (λ r. if key r == k then f r else r) (find q rows)
    unfolding update_row
    find-update_row q k f [] same = refl
    find-update_row q k f (r ∷ rows) same = elim (Bool-cases (key r == k)) [
      | inl y ↦ elim (Bool-cases (q r)) [
        | inl t ↦ rw (y, same r, t, y) refl
        | inr n ↦ rw (y, same r, n) (find-update_row q k f rows same)
      ]
      | inr d ↦ elim (Bool-cases (q r)) [
        | inl t ↦ rw (d, t, d) refl
        | inr n ↦ rw (d, n) (find-update_row q k f rows same)
      ]
    ]

    -- The rows with the key are changed; what the other rows satisfy they still do.
    pub All-update_row {κ κ'} :
        (P : A → Type κ) (Q : A → Type κ') (k : String) (f : A → A) (rows : List A)
        → ((a : A) → (key a == k) ≡ true → P a → Q (f a))
        → ((a : A) → P a → Q a)
        → All P rows
        → All Q (update_row key k f rows)
    unfolding update_row
    All-update_row P Q k f [] changed kept h = tt
    All-update_row P Q k f (r ∷ rows) changed kept h = elim (Bool-cases (key r == k)) [
      | inl y ↦ rw y (changed r y h.0, All-update_row P Q k f rows changed kept h.1)
      | inr n ↦ rw n (kept r h.0, All-update_row P Q k f rows changed kept h.1)
    ]

    pub All-remove_row {κ} :
        (P : A → Type κ) (k : String) (rows : List A) → All P rows → All P (remove_row key k rows)
    unfolding remove_row
    All-remove_row P k [] h = tt
    All-remove_row P k (r ∷ rows) h = elim (Bool-cases (key r == k)) [
      | inl y ↦ rw y (All-remove_row P k rows h.1)
      | inr n ↦ rw n (h.0, All-remove_row P k rows h.1)
    ]
