-- ===== src/BrowserPool.antt =====
-- aci/server/browser_pool.py: `ResilientBrowserPool`. Its state lies in Redis: the list of the free
-- workers, the set of the active ones, and the hash of the leases. One call of a method is one step;
-- what DNS, the health checks and the clock answer are arguments.
pub mod Laws
pub mod Counts
pub mod Refresh
pub mod Active
pub mod Calls
pub mod Faults
mod Tests
use autom.Prelude.{
  ℕ, ◌-◌, String, Bool, true, false, not, Option, none, some, List, [], ◌∷◌, map, ltb, member, keep,
  if◌then◌else◌,
}
use Prim.Native.String.{◌++◌ as ◌<>◌}
use autom.Prelude.Redis.{Redis}

abbrev pub Time : Type 0
Time = ℕ

-- `discovered_addresses.add(...)` for every host: each address once.
pub to_set : List String → List String
to_set [] = []
to_set (addr ∷ rest) = let seen = to_set rest in if member addr seen then seen else addr ∷ seen

-- `_discover_workers`: the hosts that the name resolves to, or none where the resolution raised.
pub discover_workers : Option (List String) → List String
unfolding to_set
discover_workers none = []
discover_workers (some ips) = to_set (map (λ ip. "http://" <> ip <> ":6000") ips)

module _ (R : Redis Time) where
  -- A command for each of the dead workers.
  pub for_each : (String → R.State → R.State) → List String → R.State → R.State
  for_each command [] s = s
  for_each command (addr ∷ rest) s = for_each command rest (command addr s)

  -- The pipeline, which Redis executes as one.
  pub prune : List String → R.State → R.State
  unfolding for_each
  prune dead_workers s =
      for_each R.lrem dead_workers (for_each R.hdel dead_workers (for_each R.srem dead_workers s))

module _ (R : Redis Time) (is_healthy : String → Bool) where
  -- The loop over the new workers.
  pub add_workers : List String → R.State → R.State
  add_workers [] s = s
  add_workers (addr ∷ rest) s =
      add_workers rest (if is_healthy addr then R.lpush addr (R.sadd addr s) else s)

  pub discover_and_update : Option (List String) → R.State → R.State
  unfolding add_workers prune
  discover_and_update hosts s =
      let discovered = discover_workers hosts in
      let active = R.smembers s in
      let new_workers = keep (λ addr. not (member addr active)) discovered in
      let dead_workers = keep (λ addr. not (member addr discovered)) active in
      prune R dead_workers (add_workers new_workers s)

  -- The body of the loop over the leases: `(now - timestamp) > self._stale_timeout`.
  pub reclaim_lease : ℕ → Time → String × Time → R.State → R.State
  reclaim_lease stale_timeout now (addr, timestamp) s =
      if ltb stale_timeout (now - timestamp)
      then R.hdel addr (if is_healthy addr then R.lpush addr s else R.srem addr s)
      else s

  pub reclaim_all : ℕ → Time → List (String × Time) → R.State → R.State
  unfolding reclaim_lease
  reclaim_all stale_timeout now [] s = s
  reclaim_all stale_timeout now (lease ∷ rest) s =
      reclaim_all stale_timeout now rest (reclaim_lease stale_timeout now lease s)

  pub reclaim_stuck_workers : ℕ → Time → R.State → R.State
  unfolding reclaim_all
  reclaim_stuck_workers stale_timeout now s = reclaim_all stale_timeout now (R.hgetall s) s

  pub release : String → R.State → R.State
  release addr s = R.hdel addr (if is_healthy addr then R.lpush addr s else R.srem addr s)

module _ (R : Redis Time) where
  -- From the answer of BRPOP, which is none after the timeout. If HSET raises, the `except` returns
  -- None.
  popped : Bool → Time → Option (String × R.State) → R.State → Option String × R.State
  popped hset_fails now none s = (none, s)
  popped hset_fails now (some (addr, t)) s =
      if hset_fails then (none, t) else (some addr, R.hset addr now t)

  pub acquire : Bool → Time → R.State → Option String × R.State
  unfolding popped
  acquire hset_fails now s = popped hset_fails now (R.brpop s) s

  -- `start`, up to the thread that it starts.
  pub start : (String → Bool) → Option (List String) → R.State → R.State
  start is_healthy hosts s = discover_and_update R is_healthy hosts (R.delete s)
