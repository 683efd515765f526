-- ===== src/BrowserPool/Refresh.antt =====
-- The periodic refresh of the pool keeps its workers exclusive.
use autom.Prelude.{
  ℕ, ◌+◌, ◌≤◌, ◌-◌, ltb, ◌⊎◌, String, ◌≡◌, refl, subst, ◌∙◌, Bool, true, false, not, Option, none,
  some, List, [], ◌∷◌, map, arith, ◌==◌, eq_iff, eq_refl, keep, member, Bool-cases, inl, inr,
  if◌then◌else◌,
}
use Prim.Native.String.{◌++◌ as ◌<>◌}
use autom.Prelude.Redis.{Redis, IsDocumented, count-drop, count, as_number, is_set}
use autom.BrowserPool.{
  Time, discover_workers, add_workers, for_each, prune, discover_and_update, reclaim_lease,
  reclaim_all, reclaim_stuck_workers, release,
}
use autom.BrowserPool.Laws.{IsExclusive, release-IsExclusive}
use autom.BrowserPool.Counts.{is_set-bound, count-to_set, count-keep, count-kept, member-count}

module _ (R : Redis Time) (D : IsDocumented R) (is_healthy : String → Bool) where
  -- Workers that are new, each once, join the pool as free ones.
  added-IsExclusive :
      (addr : String) (s : R.State)
      → IsExclusive R s
      → R.sismember addr s ≡ false
      → IsExclusive R (R.lpush addr (R.sadd addr s))
  unfolding count
  added-IsExclusive addr s h new b =
      rw (D.lpush_list, D.sadd_list, D.lpush_hash, D.sadd_hash, D.lpush_set, D.sadd_set)
        (elim (Bool-cases (addr == b)) [
          | inl hit ↦
              let none_live : as_number (R.sismember b s) ≡ 0 =
                subst (λ k. as_number (R.sismember k s) ≡ 0) ((eq_iff addr b).0 hit)
                  (rw new refl) in
              rw hit (omega (arith, h b, none_live))
          | inr miss ↦ rw miss (omega (arith, h b))
        ])

  new_first :
      (addr : String) (rest : List String) (s : R.State)
      → count addr (addr ∷ rest) + as_number (R.sismember addr s) ≤ 1
      → R.sismember addr s ≡ false
  unfolding count
  new_first addr rest s k = elim (Bool-cases (R.sismember addr s)) [
    | inl live ↦ absurd (omega (arith, (rw (eq_refl addr, live) at k)))
    | inr new ↦ new
  ]

  add_workers-IsExclusive :
      (new_workers : List String) (s : R.State)
      → IsExclusive R s
      → ((b : String) → count b new_workers + as_number (R.sismember b s) ≤ 1)
      → IsExclusive R (add_workers R is_healthy new_workers s)
  unfolding add_workers count
  add_workers-IsExclusive [] s h k = h
  add_workers-IsExclusive (addr ∷ rest) s h k = elim (Bool-cases (is_healthy addr)) [
    | inl well ↦
        rw (add_workers, well)
          (add_workers-IsExclusive rest (R.lpush addr (R.sadd addr s))
            (added-IsExclusive addr s h (new_first addr rest s (k addr)))
            (λ b.
              rw (D.lpush_set, D.sadd_set)
                (elim (Bool-cases (addr == b)) [
                  | inl hit ↦
                      let joined : count b (addr ∷ rest) + as_number (R.sismember b s) ≤ 1 = k b in
                      rw hit (omega (arith, (rw hit at joined)))
                  | inr miss ↦ rw miss (omega (arith, k b))
                ])))
    | inr ill ↦ rw (add_workers, ill) (add_workers-IsExclusive rest s h (λ b. omega (arith, k b)))
  ]

module _ (R : Redis Time) (D : IsDocumented R) where
  -- The loops of the pipeline.
  pub srem_all :
      (dead : List String) (s : R.State) (b : String)
      → (R.lrange (for_each R R.srem dead s) ≡ R.lrange s)
        × (R.hget b (for_each R R.srem dead s) ≡ R.hget b s)
        × (R.sismember b (for_each R R.srem dead s)
            ≡ (if member b dead then false else R.sismember b s))
  unfolding for_each
  srem_all [] s b = (refl, refl, refl)
  srem_all (addr ∷ rest) s b =
      let (list, hash, set) = srem_all rest (R.srem addr s) b in
      (
        list ∙ D.srem_list addr s,
        hash ∙ D.srem_hash addr s b,
        set ∙ rw (D.srem_set addr s b) (ground arith),
      )

  pub hdel_all :
      (dead : List String) (s : R.State) (b : String)
      → (R.lrange (for_each R R.hdel dead s) ≡ R.lrange s)
        × (R.hget b (for_each R R.hdel dead s) ≡ (if member b dead then none else R.hget b s))
        × (R.sismember b (for_each R R.hdel dead s) ≡ R.sismember b s)
  unfolding for_each
  hdel_all [] s b = (refl, refl, refl)
  hdel_all (addr ∷ rest) s b =
      let (list, hash, set) = hdel_all rest (R.hdel addr s) b in
      (
        list ∙ D.hdel_list addr s,
        hash ∙ rw (D.hdel_hash addr s b) (ground arith),
        set ∙ D.hdel_set addr s b,
      )

  pub lrem_all :
      (dead : List String) (s : R.State) (b : String)
      → (count b (R.lrange (for_each R R.lrem dead s))
          ≡ (if member b dead then 0 else count b (R.lrange s)))
        × (R.hget b (for_each R R.lrem dead s) ≡ R.hget b s)
        × (R.sismember b (for_each R R.lrem dead s) ≡ R.sismember b s)
  unfolding for_each
  lrem_all [] s b = (refl, refl, refl)
  lrem_all (addr ∷ rest) s b =
      let (list, hash, set) = lrem_all rest (R.lrem addr s) b in
      (
        list ∙ rw (D.lrem_list addr s, count-drop addr b (R.lrange s)) (ground arith),
        hash ∙ D.lrem_hash addr s b,
        set ∙ D.lrem_set addr s b,
      )

  prune-IsExclusive :
      (dead : List String) (s : R.State) → IsExclusive R s → IsExclusive R (prune R dead s)
  unfolding prune
  prune-IsExclusive dead s h b =
      let s' = for_each R R.srem dead s in
      let s'' = for_each R R.hdel dead s' in
      let (list, hash, set) = srem_all dead s b in
      let (list', hash', set') = hdel_all dead s' b in
      let (list'', hash'', set'') = lrem_all dead s'' b in
      rw (list'', hash'', set'', list', hash', set', list, hash, set)
        (elim (Bool-cases (member b dead)) [
          | inl out ↦ rw out (omega arith)
          | inr stays ↦ rw stays (h b)
        ])

  discovered_once :
      (hosts : Option (List String)) (b : String) → count b (discover_workers hosts) ≤ 1
  unfolding discover_workers count
  discovered_once none b = omega arith
  discovered_once (some ips) b = count-to_set b (map (λ ip. "http://" <> ip <> ":6000") ips)

  -- The workers that are new are not active, and each is there once.
  new_workers_lem :
      (hosts : Option (List String)) (s : R.State) (b : String)
      → count b (keep (λ addr. not (member addr (R.smembers s))) (discover_workers hosts))
          + as_number (R.sismember b s)
        ≤ 1
  new_workers_lem hosts s b =
      let is_new = λ (addr : String). not (member addr (R.smembers s)) in
      elim (Bool-cases (R.sismember b s)) [
        | inl live ↦
            let listed : member b (R.smembers s) ≡ true =
              member-count b (R.smembers s) (D.smembers_lem s b ∙ rw live refl) in
            rw live (omega (arith, count-kept b is_new (discover_workers hosts) (rw listed refl)))
        | inr not_live ↦
            rw not_live
              (omega (arith, count-keep b is_new (discover_workers hosts), discovered_once hosts b))
      ]

  pub discover_and_update-IsExclusive :
      (is_healthy : String → Bool) (hosts : Option (List String)) (s : R.State)
      → IsExclusive R s
      → IsExclusive R (discover_and_update R is_healthy hosts s)
  unfolding discover_and_update
  discover_and_update-IsExclusive is_healthy hosts s h =
      let active = R.smembers s in
      let new_workers = keep (λ addr. not (member addr active)) (discover_workers hosts) in
      prune-IsExclusive (keep (λ addr. not (member addr (discover_workers hosts))) active)
        (add_workers R is_healthy new_workers s)
        (add_workers-IsExclusive R D is_healthy new_workers s h (new_workers_lem hosts s))

  -- The leases that the loop still has to look at are held.
  module _ (is_healthy : String → Bool) (stale_timeout : ℕ) (now : Time) where
    abbrev AreHeld : List (String × Time) → R.State → Type 0
    AreHeld leases s = (b : String) → count b (map (λ e. e.0) leases) ≤ is_set (R.hget b s)

    hget-release :
        (addr b : String) (s : R.State)
        → R.hget b (release R is_healthy addr s) ≡ (if addr == b then none else R.hget b s)
    unfolding release
    hget-release addr b s = elim (Bool-cases (is_healthy addr)) [
      | inl well ↦ rw (release, well) (rw (D.hdel_hash, D.lpush_hash) refl)
      | inr ill ↦ rw (release, ill) (rw (D.hdel_hash, D.srem_hash) refl)
    ]

    reclaim_lease_cases :
        (addr : String) (timestamp : Time) (s : R.State)
        → (reclaim_lease R is_healthy stale_timeout now (addr, timestamp) s ≡ s)
          ⊎ (reclaim_lease R is_healthy stale_timeout now (addr, timestamp) s
              ≡ release R is_healthy addr s)
    unfolding reclaim_lease release
    reclaim_lease_cases addr timestamp s = elim (Bool-cases (ltb stale_timeout (now - timestamp))) [
      | inl stale ↦ inr (rw (reclaim_lease, stale) refl)
      | inr fresh ↦ inl (rw (reclaim_lease, fresh) refl)
    ]

    first_held :
        (addr : String) (rest : List (String × Time)) (s : R.State)
        → count addr (addr ∷ map (λ e. e.0) rest) ≤ is_set (R.hget addr s)
        → is_set (R.hget addr s) ≡ 1
    unfolding count
    first_held addr rest s held =
        let once : 1 + count addr (map (λ e. e.0) rest) ≤ is_set (R.hget addr s) =
          (rw (eq_refl addr) at held) in
        omega (arith, once, is_set-bound (R.hget addr s))

    rest_held :
        (addr : String) (timestamp : Time) (rest : List (String × Time)) (s : R.State)
        → AreHeld ((addr, timestamp) ∷ rest) s
        → AreHeld rest (release R is_healthy addr s)
    unfolding count
    rest_held addr timestamp rest s held b =
        let before : (if addr == b then 1 else 0) + count b (map (λ e. e.0) rest)
            ≤ is_set (R.hget b s) =
          held b in
        rw (hget-release addr b s) (elim (Bool-cases (addr == b)) [
          | inl hit ↦ rw hit (omega (arith, (rw hit at before), is_set-bound (R.hget b s)))
          | inr miss ↦ rw miss (omega (arith, (rw miss at before)))
        ])

    reclaim_all-IsExclusive :
        (leases : List (String × Time)) (s : R.State)
        → AreHeld leases s
        → IsExclusive R s
        → IsExclusive R (reclaim_all R is_healthy stale_timeout now leases s)
    unfolding reclaim_all count
    reclaim_all-IsExclusive [] s held h = h
    reclaim_all-IsExclusive ((addr, timestamp) ∷ rest) s held h =
        elim (reclaim_lease_cases addr timestamp s) [
          | inl fresh ↦
              rw (reclaim_all, fresh)
                (reclaim_all-IsExclusive rest s (λ b. omega (arith, held b)) h)
          | inr stale ↦
              rw (reclaim_all, stale)
                (reclaim_all-IsExclusive rest (release R is_healthy addr s)
                  (rest_held addr timestamp rest s held)
                  (release-IsExclusive R D is_healthy addr s h
                    (first_held addr rest s (held addr))))
        ]

    pub reclaim_stuck_workers-IsExclusive :
        (s : R.State)
        → IsExclusive R s
        → IsExclusive R (reclaim_stuck_workers R is_healthy stale_timeout now s)
    unfolding reclaim_stuck_workers
    reclaim_stuck_workers-IsExclusive s h =
        reclaim_all-IsExclusive (R.hgetall s) s (λ b. rw (D.hgetall_lem s b) (omega arith)) h
