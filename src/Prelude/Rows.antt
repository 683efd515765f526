-- ===== src/Prelude/Rows.antt =====
-- A table as the list of its rows, for the code that also filters and sums over all rows. `key` is
-- the primary key. A fetch by key finds the first row; a write changes the rows with the key.
use Prim.Native.String.{String}
use mathlib.Core.Path.{◌≡◌, refl}
use mathlib.Core.Bool.{false}
use mathlib.Core.Logic.{inl, inr}
use mathlib.Core.Option.{Option, none, some}
use mathlib.Core.Option
use mathlib.Core.List.{List, [], ◌∷◌, map}
use native.Mathlib.Omega.{arith}
use text.Mathlib.Text.{◌==◌}
use text.Mathlib.TextEquality.{eq_iff}
use autom.Prelude.Tests.{if◌then◌else◌, Bool-cases}

module _ {ℓ} {A : Type ℓ} (key : A → String) where
  unfoldable pub find_row : String → List A → Option A
  find_row k [] = none
  find_row k (r ∷ rows) = if key r == k then some r else find_row k rows

  unfoldable pub update_row : String → (A → A) → List A → List A
  update_row k f [] = []
  update_row k f (r ∷ rows) = (if key r == k then f r else r) ∷ update_row k f rows

  unfoldable pub remove_row : String → List A → List A
  remove_row k [] = []
  remove_row k (r ∷ rows) = let rest = remove_row k rows in if key r == k then rest else r ∷ rest

  -- A row found by a key has that key.
  pub key-find_row : (k : String) (rows : List A) {r : A} → find_row k rows ≡ some r → key r ≡ k
  unfolding find_row
  key-find_row k [] h = cc
  key-find_row k (r ∷ rows) h = elim (Bool-cases (key r == k)) [
    | inl hit ↦ ground (arith, eq_iff (key r) k)
    | inr miss ↦ key-find_row k rows (rw miss at h)
  ]

  pub find_row-update_row :
      (k j : String) (f : A → A) (rows : List A)
      → ((r : A) → key (f r) ≡ key r)
      → find_row j (update_row k f rows)
        ≡ (if k == j then Option.map f (find_row j rows) else find_row j rows)
  unfolding find_row update_row
  find_row-update_row k j f [] keeps = ground arith
  find_row-update_row k j f (r ∷ rows) keeps = ground (
    arith,
    keeps r,
    eq_iff (key r) k,
    eq_iff (key r) j,
    eq_iff (key (f r)) j,
    eq_iff k j,
    find_row-update_row k j f rows keeps,
  )

  -- A write to the rows of one key, which keeps it, is not seen under another.
  pub find_row-update_other :
      (k j : String) (f : A → A) (rows : List A)
      → ((r : A) → key (f r) ≡ k)
      → (k == j) ≡ false
      → find_row j (update_row k f rows) ≡ find_row j rows
  unfolding find_row update_row
  find_row-update_other k j f [] keeps other = refl
  find_row-update_other k j f (r ∷ rows) keeps other =
      let rest = find_row-update_other k j f rows keeps other in
      ground (arith, keeps r, eq_iff (key r) k, rest)

  pub find_row-remove_row :
      (k j : String) (rows : List A)
      → find_row j (remove_row k rows) ≡ (if k == j then none else find_row j rows)
  unfolding find_row remove_row
  find_row-remove_row k j [] = ground arith
  find_row-remove_row k j (r ∷ rows) =
      ground (arith, eq_iff (key r) k, eq_iff (key r) j, eq_iff k j, find_row-remove_row k j rows)

  pub find_row-update_found :
      (k j : String) (f : A → A) (rows : List A) (r : A)
      → ((r : A) → key (f r) ≡ key r)
      → find_row k rows ≡ some r
      → find_row j (update_row k f rows) ≡ (if k == j then some (f r) else find_row j rows)
  find_row-update_found k j f rows r keeps h =
      ground (arith, find_row-update_row k j f rows keeps, eq_iff k j)

  -- A map over the rows that keeps the keys finds no more keys.
  pub find_row-map :
      (f : A → A) (k : String) (rows : List A)
      → ((r : A) → key (f r) ≡ key r)
      → find_row k rows ≡ none
      → find_row k (map f rows) ≡ none
  unfolding find_row
  find_row-map f k [] keeps h = refl
  find_row-map f k (r ∷ rows) keeps h = elim (Bool-cases (key r == k)) [
    | inl hit ↦ absurd (ground (arith, rw hit at h))
    | inr miss ↦ rw (keeps r, miss) (find_row-map f k rows keeps (rw miss at h))
  ]
