-- ===== src/BrowserPool/Faults.antt =====
-- Where a worker is shared or lost: a release after the lease was reclaimed, and a lease that Redis
-- does not take.
use autom.Prelude.{
  String, ◌≡◌, ◌≢◌, refl, sym, ap, ◌∙◌, Bool, true, false, none, some, List, [], ◌∷◌, ◌++◌,
  Option-cases, inl, inr,
}
use autom.Prelude.Redis.{Redis, IsDocumented, count, is_set}
use autom.BrowserPool.{Time, release, acquire}
use autom.BrowserPool.Laws.{IsExclusive, popped_free, acquire_popped}

snoc-injective :
    (xs ys : List String) (x y : String) → xs ++ x ∷ [] ≡ ys ++ y ∷ [] → (xs ≡ ys) × (x ≡ y)
snoc-injective [] [] x y h = (refl, cc h)
snoc-injective [] (b ∷ []) x y h = absurd (cc h)
snoc-injective [] (b ∷ c ∷ ys) x y h = absurd (cc h)
snoc-injective (a ∷ []) [] x y h = absurd (cc h)
snoc-injective (a ∷ c ∷ xs) [] x y h = absurd (cc h)
snoc-injective (a ∷ xs) (b ∷ ys) x y h =
    let rest : xs ++ x ∷ [] ≡ ys ++ y ∷ [] = cc h in
    let first : a ≡ b = cc h in
    let (same, last) = snoc-injective xs ys x y rest in (cc (first, same), last)

snoc-nonempty : (xs : List String) (x : String) → xs ++ x ∷ [] ≢ []
snoc-nonempty [] x h = cc h
snoc-nonempty (a ∷ xs) x h = cc h

module _ (R : Redis Time) (D : IsDocumented R) where
  -- If the lease is stored, `acquire` returns the last worker of the free list, which keeps the
  -- others.
  pub acquire_last :
      (now : Time) (s : R.State) (xs : List String) (x : String)
      → R.lrange s ≡ xs ++ x ∷ []
      → ((acquire R false now s).0 ≡ some x) × (R.lrange (acquire R false now s).1 ≡ xs)
  acquire_last now s xs x list = elim (Option-cases (R.brpop s)) [
    | inl empty ↦ absurd (snoc-nonempty xs x (sym list ∙ D.brpop_none s empty))
    | inr ((a, t), e) ↦
        let (rest, last) = snoc-injective xs (R.lrange t) x a (sym list ∙ D.brpop_list s t a e) in
        rw (acquire_popped R D false now s t a e)
          (ap some (sym last), D.hset_list a now t ∙ sym rest)
  ]

  -- If a healthy worker is the only free one (as after its stale lease was reclaimed), and is
  -- released all the same (as by the client that held the lease), then the next two calls of
  -- `acquire` both return the worker, if their leases are stored.
  pub late_release_shares :
      (is_healthy : String → Bool) (addr : String) (now now' : Time) (s : R.State)
      → R.lrange s ≡ addr ∷ []
      → is_healthy addr ≡ true
      → let first = acquire R false now (release R is_healthy addr s) in
        (first.0 ≡ some addr) × ((acquire R false now' first.1).0 ≡ some addr)
  unfolding release
  late_release_shares is_healthy addr now now' s list well =
      let twice : R.lrange (release R is_healthy addr s) ≡ addr ∷ addr ∷ [] =
        rw (release, well) (rw (D.hdel_list, D.lpush_list, list) refl) in
      let (got, rest) = acquire_last now (release R is_healthy addr s) (addr ∷ []) addr twice in
      (got, (acquire_last now' _ [] addr rest).0)

  -- If HSET raises for a worker that `acquire` took from the free list, then in a state where every
  -- worker is free once at most or leased, `acquire` returns None and leaves the worker active,
  -- though it is neither free nor leased.
  pub failed_lease_loses :
      (now : Time) (s t : R.State) (addr : String)
      → IsExclusive R s
      → R.brpop s ≡ some (addr, t)
      → let (got, after) = acquire R true now s in
        (got ≡ none)
        × (R.sismember addr after ≡ true)
        × (count addr (R.lrange after) ≡ 0)
        × (is_set (R.hget addr after) ≡ 0)
  failed_lease_loses now s t addr h e =
      let (gone, unleased, live) = popped_free R D s t addr e h in
      rw (acquire_popped R D true now s t addr e) (
        refl,
        D.brpop_set s t addr e addr ∙ live,
        gone,
        ap is_set (D.brpop_hash s t addr e addr) ∙ unleased,
      )
