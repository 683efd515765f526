-- ===== src/BrowserPool/Laws.antt =====
-- No worker is handed out twice: what each operation keeps.
use autom.Prelude.{
  ◌+◌, ◌≤◌, String, ◌≡◌, refl, ap, subst, ◌∙◌, Bool, true, false, Option, none, some, List, [], ◌∷◌,
  ◌++◌, arith, ◌==◌, eq_iff, eq_refl, Bool-cases, Option-cases, inl, inr, ◌⊎◌, if◌then◌else◌,
}
use mathlib.Core.Option.{some-injective}
use autom.Prelude.Redis.{Redis, IsDocumented, count, as_number, is_set}
use autom.BrowserPool.{Time, release, acquire}

-- A worker that is active is free once at most or leased, and not both; a worker that is not active
-- is neither.
abbrev pub IsExclusive : (R : Redis Time) → R.State → Type 0
IsExclusive R s =
    (a : String) → count a (R.lrange s) + is_set (R.hget a s) ≤ as_number (R.sismember a s)

count-append :
    (a b : String) (xs : List String)
    → count a (xs ++ b ∷ []) ≡ (if b == a then 1 else 0) + count a xs
unfolding count
count-append a b [] = refl
count-append a b (x ∷ xs) = omega (arith, count-append a b xs)

as_number-bound : (b : Bool) → as_number b ≤ 1
as_number-bound true = omega arith
as_number-bound false = omega arith

is_set-none : (o : Option Time) → is_set o ≡ 0 → o ≡ none
is_set-none none h = refl
is_set-none (some t) h = absurd (omega (arith, h))

module _ (R : Redis Time) (D : IsDocumented R) where
  returned-IsExclusive :
      (addr : String) (s : R.State)
      → IsExclusive R s
      → is_set (R.hget addr s) ≡ 1
      → IsExclusive R (R.hdel addr (R.lpush addr s))
  unfolding count
  returned-IsExclusive addr s h held b =
      rw (D.hdel_list, D.lpush_list, D.hdel_hash, D.lpush_hash, D.hdel_set, D.lpush_set)
        (elim (Bool-cases (addr == b)) [
          | inl hit ↦
              let own : is_set (R.hget b s) ≡ 1 =
                subst (λ k. is_set (R.hget k s) ≡ 1) ((eq_iff addr b).0 hit) held in
              rw hit (omega (arith, h b, own))
          | inr miss ↦ rw miss (omega (arith, h b))
        ])

  removed-IsExclusive :
      (addr : String) (s : R.State)
      → IsExclusive R s
      → is_set (R.hget addr s) ≡ 1
      → IsExclusive R (R.hdel addr (R.srem addr s))
  removed-IsExclusive addr s h held b =
      rw (D.hdel_list, D.srem_list, D.hdel_hash, D.srem_hash, D.hdel_set, D.srem_set)
        (elim (Bool-cases (addr == b)) [
          | inl hit ↦
              let own : is_set (R.hget b s) ≡ 1 =
                subst (λ k. is_set (R.hget k s) ≡ 1) ((eq_iff addr b).0 hit) held in
              rw hit (omega (arith, h b, own, as_number-bound (R.sismember b s)))
          | inr miss ↦ rw miss (h b)
        ])

  -- A worker whose lease is held comes back, or leaves the pool.
  pub release-IsExclusive :
      (is_healthy : String → Bool) (addr : String) (s : R.State)
      → IsExclusive R s
      → is_set (R.hget addr s) ≡ 1
      → IsExclusive R (release R is_healthy addr s)
  unfolding release
  release-IsExclusive is_healthy addr s h held = elim (Bool-cases (is_healthy addr)) [
    | inl well ↦ rw (release, well) (returned-IsExclusive addr s h held)
    | inr ill ↦ rw (release, ill) (removed-IsExclusive addr s h held)
  ]

  popped-IsExclusive :
      (s t : R.State) (addr : String)
      → R.brpop s ≡ some (addr, t)
      → IsExclusive R s
      → IsExclusive R t
  popped-IsExclusive s t addr e h b =
      let list : count b (R.lrange s) ≡ (if addr == b then 1 else 0) + count b (R.lrange t) =
        ap (count b) (D.brpop_list s t addr e) ∙ count-append b addr (R.lrange t) in
      rw (D.brpop_hash s t addr e, D.brpop_set s t addr e) (omega (arith, h b, list))

  -- A worker that is taken from the free list is in the list no more, and had no lease.
  pub popped_free :
      (s t : R.State) (addr : String)
      → R.brpop s ≡ some (addr, t)
      → IsExclusive R s
      → (count addr (R.lrange t) ≡ 0) × (is_set (R.hget addr s) ≡ 0) × (R.sismember addr s ≡ true)
  popped_free s t addr e h =
      let list : count addr (R.lrange s) ≡ 1 + count addr (R.lrange t) =
        ap (count addr) (D.brpop_list s t addr e)
        ∙ count-append addr addr (R.lrange t)
        ∙ rw (eq_refl addr) refl in
      let bound = as_number-bound (R.sismember addr s) in
      (
        omega (arith, h addr, list, bound),
        omega (arith, h addr, list, bound),
        elim (Bool-cases (R.sismember addr s)) [
          | inl live ↦ live
          | inr not_live ↦
              let none_live : as_number (R.sismember addr s) ≡ 0 = rw not_live refl in
              absurd (omega (arith, h addr, list, none_live))
        ],
      )

  leased-IsExclusive :
      (t : R.State) (addr : String) (now : Time)
      → IsExclusive R t
      → count addr (R.lrange t) ≡ 0
      → R.sismember addr t ≡ true
      → IsExclusive R (R.hset addr now t)
  leased-IsExclusive t addr now h gone live b =
      rw (D.hset_list, D.hset_hash, D.hset_set)
        (elim (Bool-cases (addr == b)) [
          | inl hit ↦
              let same = (eq_iff addr b).0 hit in
              let none_free : count b (R.lrange t) ≡ 0 =
                subst (λ k. count k (R.lrange t) ≡ 0) same gone in
              let one_live : as_number (R.sismember b t) ≡ 1 =
                subst (λ k. as_number (R.sismember k t) ≡ 1) same (rw live refl) in
              rw hit (omega (arith, none_free, one_live))
          | inr miss ↦ rw miss (h b)
        ])

  pub acquire_popped :
      (hset_fails : Bool) (now : Time) (s t : R.State) (addr : String)
      → R.brpop s ≡ some (addr, t)
      → acquire R hset_fails now s
        ≡ (if hset_fails then (none, t) else (some addr, R.hset addr now t))
  unfolding acquire
  acquire_popped hset_fails now s t addr e = rw e refl

  acquire_empty :
      (hset_fails : Bool) (now : Time) (s : R.State)
      → R.brpop s ≡ none
      → acquire R hset_fails now s ≡ (none, s)
  unfolding acquire
  acquire_empty hset_fails now s e = rw e refl

  pub acquire-IsExclusive :
      (hset_fails : Bool) (now : Time) (s : R.State)
      → IsExclusive R s
      → IsExclusive R (acquire R hset_fails now s).1
  acquire-IsExclusive hset_fails now s h = elim (Option-cases (R.brpop s)) [
    | inl empty ↦ rw (acquire_empty hset_fails now s empty) h
    | inr ((addr, t), e) ↦
        let (gone, unleased, live) = popped_free s t addr e h in
        let rest = popped-IsExclusive s t addr e h in
        rw (acquire_popped hset_fails now s t addr e) (elim (Bool-cases hset_fails) [
          | inl lost ↦ rw lost rest
          | inr stored ↦
              rw stored
                (leased-IsExclusive t addr now rest gone (D.brpop_set s t addr e addr ∙ live))
        ])
  ]

  -- A worker that `acquire` returns was leased to no one and was in the free list once; it is leased
  -- from now on and not free.
  pub acquire_lem :
      (hset_fails : Bool) (now : Time) (s : R.State) (addr : String)
      → IsExclusive R s
      → (acquire R hset_fails now s).0 ≡ some addr
      → (R.hget addr s ≡ none)
        × (count addr (R.lrange s) ≡ 1)
        × (R.hget addr (acquire R hset_fails now s).1 ≡ some now)
        × (count addr (R.lrange (acquire R hset_fails now s).1) ≡ 0)
  acquire_lem hset_fails now s addr h q = elim (Option-cases (R.brpop s)) [
    | inl empty ↦ absurd (ground (arith, (rw (acquire_empty hset_fails now s empty) at q)))
    | inr ((a, t), e) ↦ acquire_popped_lem t a e (Bool-cases hset_fails)
  ]
    where
      acquire_popped_lem :
          (t : R.State) (a : String)
          → R.brpop s ≡ some (a, t)
          → (hset_fails ≡ true) ⊎ (hset_fails ≡ false)
          → (R.hget addr s ≡ none)
            × (count addr (R.lrange s) ≡ 1)
            × (R.hget addr (acquire R hset_fails now s).1 ≡ some now)
            × (count addr (R.lrange (acquire R hset_fails now s).1) ≡ 0)
      acquire_popped_lem t a e (inl lost) =
          absurd (ground (arith, (rw lost at (rw (acquire_popped hset_fails now s t a e) at q))))
      acquire_popped_lem t a e (inr stored) =
          let same : a ≡ addr =
            some-injective a addr
              (rw stored at (rw (acquire_popped hset_fails now s t a e) at q)) in
          let (gone, unleased, live) = popped_free s t a e h in
          let list : count a (R.lrange s) ≡ 1 =
            ap (count a) (D.brpop_list s t a e)
            ∙ count-append a a (R.lrange t)
            ∙ rw (eq_refl a) (omega (arith, gone)) in
          subst
            (λ k.
              (R.hget k s ≡ none)
              × (count k (R.lrange s) ≡ 1)
              × (R.hget k (acquire R hset_fails now s).1 ≡ some now)
              × (count k (R.lrange (acquire R hset_fails now s).1) ≡ 0))
            same
            (rw (acquire_popped hset_fails now s t a e) (
              rw stored (
                is_set-none (R.hget a s) unleased,
                list,
                D.hset_hash a now t a ∙ rw (eq_refl a) refl,
                ap (count a) (D.hset_list a now t) ∙ gone,
              )))
