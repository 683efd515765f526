-- ===== src/BrowserPool/Active.antt =====
-- The active set after a refresh.
use autom.Prelude.{
  ◌≤◌, String, ◌≡◌, refl, ◌∙◌, Bool, true, not, ◌&&◌, ◌||◌, Option, List, [], ◌∷◌, arith, ◌==◌,
  eq_iff, keep, member, Bool-cases, inl, inr,
}
use autom.Prelude.Redis.{Redis, IsDocumented, count}
use autom.BrowserPool.{Time, discover_workers, add_workers, for_each, prune, discover_and_update}
use autom.BrowserPool.Counts.{member-count}
use autom.BrowserPool.Refresh.{srem_all, hdel_all, lrem_all}

member-keep :
    (p : String → Bool) (b : String) (xs : List String)
    → member b (keep p xs) ≡ (member b xs && p b)
member-keep p b [] = refl
member-keep p b (x ∷ xs) = elim (Bool-cases (p x)) [
  | inl kept ↦ rw kept (ground (arith, member-keep p b xs, eq_iff x b, kept))
  | inr dropped ↦ rw dropped (ground (arith, member-keep p b xs, eq_iff x b, dropped))
]

count-listed : (b : String) (xs : List String) → member b xs ≡ true → 1 ≤ count b xs
unfolding count
count-listed b [] h = absurd (cc h)
count-listed b (x ∷ xs) h = elim (Bool-cases (x == b)) [
  | inl hit ↦ rw hit (omega arith)
  | inr miss ↦ rw miss (omega (arith, count-listed b xs (rw miss at h)))
]

module _ (R : Redis Time) (D : IsDocumented R) (is_healthy : String → Bool) where
  active-add_workers :
      (xs : List String) (s : R.State) (b : String)
      → R.sismember b (add_workers R is_healthy xs s)
        ≡ (R.sismember b s || (member b xs && is_healthy b))
  unfolding add_workers
  active-add_workers [] s b = ground arith
  active-add_workers (addr ∷ rest) s b = elim (Bool-cases (is_healthy addr)) [
    | inl well ↦
        rw (add_workers, well)
          (active-add_workers rest (R.lpush addr (R.sadd addr s)) b
            ∙ rw (D.lpush_set, D.sadd_set) (ground (arith, well, eq_iff addr b)))
    | inr ill ↦
        rw (add_workers, ill) (active-add_workers rest s b ∙ ground (arith, ill, eq_iff addr b))
  ]

  smembers-member : (s : R.State) (b : String) → member b (R.smembers s) ≡ R.sismember b s
  smembers-member s b = elim (Bool-cases (R.sismember b s)) [
    | inl live ↦ rw live (member-count b (R.smembers s) (D.smembers_lem s b ∙ rw live refl))
    | inr out ↦ rw out (elim (Bool-cases (member b (R.smembers s))) [
      | inl listed ↦
          let none_listed : count b (R.smembers s) ≡ 0 = D.smembers_lem s b ∙ rw out refl in
          absurd (omega (arith, count-listed b (R.smembers s) listed, none_listed))
      | inr missing ↦ missing
    ])
  ]

  active-prune :
      (dead : List String) (s : R.State) (b : String)
      → R.sismember b (prune R dead s) ≡ (not (member b dead) && R.sismember b s)
  unfolding prune
  active-prune dead s b =
      let s' = for_each R R.srem dead s in
      let s'' = for_each R R.hdel dead s' in
      (lrem_all R D dead s'' b).2
      ∙ (hdel_all R D dead s' b).2
      ∙ (srem_all R D dead s b).2
      ∙ ground arith

  -- After a refresh, a worker is active exactly if DNS named it, and it was active before or is
  -- healthy.
  pub discover_and_update_lem :
      (hosts : Option (List String)) (s : R.State) (b : String)
      → R.sismember b (discover_and_update R is_healthy hosts s)
        ≡ (member b (discover_workers hosts) && (R.sismember b s || is_healthy b))
  unfolding discover_and_update
  discover_and_update_lem hosts s b =
      let found = discover_workers hosts in
      let active = R.smembers s in
      let new_workers = keep (λ addr. not (member addr active)) found in
      let dead_workers = keep (λ addr. not (member addr found)) active in
      active-prune dead_workers (add_workers R is_healthy new_workers s) b
      ∙ ground (
        arith,
        active-add_workers new_workers s b,
        member-keep (λ addr. not (member addr active)) b found,
        member-keep (λ addr. not (member addr found)) b active,
        smembers-member s b,
      )
