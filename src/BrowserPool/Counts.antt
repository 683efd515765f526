-- ===== src/BrowserPool/Counts.antt =====
-- How often a worker is in the lists of the pool.
use autom.Prelude.{
  ◌≤◌, String, ◌≡◌, refl, subst, Bool, true, false, Option, none, some, List, [], ◌∷◌, arith, ◌==◌,
  eq_iff, keep, member, Bool-cases, inl, inr,
}
use autom.Prelude.Redis.{count, is_set}
use autom.BrowserPool.{Time, to_set}

pub is_set-bound : (o : Option Time) → is_set o ≤ 1
is_set-bound none = omega arith
is_set-bound (some t) = omega arith

-- Each address is in a set once.
pub count-member : (a : String) (xs : List String) → member a xs ≡ false → count a xs ≡ 0
unfolding count
count-member a [] h = refl
count-member a (x ∷ xs) h = elim (Bool-cases (x == a)) [
  | inl hit ↦ absurd (ground (arith, hit))
  | inr miss ↦ rw miss (omega (arith, count-member a xs (rw miss at h)))
]

pub count-to_set : (a : String) (xs : List String) → count a (to_set xs) ≤ 1
unfolding count to_set
count-to_set a [] = omega arith
count-to_set a (x ∷ xs) = elim (Bool-cases (member x (to_set xs))) [
  | inl seen ↦ rw seen (count-to_set a xs)
  | inr new ↦ rw new (elim (Bool-cases (x == a)) [
    | inl hit ↦
        let same = (eq_iff x a).0 hit in
        rw hit (
          omega (
            arith,
            count-member a (to_set xs) (subst (λ k. member k (to_set xs) ≡ false) same new),
          ))
    | inr miss ↦ rw miss (omega (arith, count-to_set a xs))
  ])
]

pub count-keep :
    (a : String) (p : String → Bool) (xs : List String) → count a (keep p xs) ≤ count a xs
unfolding count
count-keep a p [] = omega arith
count-keep a p (x ∷ xs) = elim (Bool-cases (p x)) [
  | inl kept ↦ rw kept (omega (arith, count-keep a p xs))
  | inr dropped ↦ rw dropped (omega (arith, count-keep a p xs))
]

-- A text that a filter drops is not in what it keeps.
pub count-kept :
    (a : String) (p : String → Bool) (xs : List String) → p a ≡ false → count a (keep p xs) ≡ 0
unfolding count
count-kept a p [] h = refl
count-kept a p (x ∷ xs) h = elim (Bool-cases (p x)) [
  | inl kept ↦ elim (Bool-cases (x == a)) [
    | inl hit ↦ absurd (ground (arith, h, kept, (eq_iff x a).0 hit))
    | inr miss ↦ rw (kept, miss) (omega (arith, count-kept a p xs h))
  ]
  | inr dropped ↦ rw dropped (count-kept a p xs h)
]

pub member-count : (a : String) (xs : List String) → count a xs ≡ 1 → member a xs ≡ true
member-count a xs h = elim (Bool-cases (member a xs)) [
  | inl found ↦ found
  | inr missing ↦ absurd (omega (arith, h, count-member a xs missing))
]
