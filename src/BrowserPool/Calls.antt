-- ===== src/BrowserPool/Calls.antt =====
-- Every sequence of calls of the pool's methods, from its start on.
use autom.Prelude.{ℕ, String, ◌≡◌, Bool, Option, none, some, List, arith}
use autom.Prelude.Redis.{Redis, IsDocumented, count, is_set}
use autom.BrowserPool.{Time, discover_and_update, reclaim_stuck_workers, release, acquire, start}
use autom.BrowserPool.Laws.{IsExclusive, release-IsExclusive, acquire-IsExclusive, acquire_lem}
use autom.BrowserPool.Refresh.{discover_and_update-IsExclusive, reclaim_stuck_workers-IsExclusive}

-- A call of a method, by any process. `released` is the call of a client whose lease was not
-- reclaimed meanwhile. The two parts of a refresh are calls of their own.
pub data Call (R : Redis Time) : R.State → R.State → Type 0 where
  acquired :
      (hset_fails : Bool) (now : Time) (s : R.State) → Call R s (acquire R hset_fails now s).1
  released :
      (is_healthy : String → Bool) (addr : String) (s : R.State)
      → is_set (R.hget addr s) ≡ 1
      → Call R s (release R is_healthy addr s)
  discovered :
      (is_healthy : String → Bool) (hosts : Option (List String)) (s : R.State)
      → Call R s (discover_and_update R is_healthy hosts s)
  reclaimed :
      (is_healthy : String → Bool) (stale_timeout : ℕ) (now : Time) (s : R.State)
      → Call R s (reclaim_stuck_workers R is_healthy stale_timeout now s)

pub data IsReachable (R : Redis Time) : R.State → Type 0 where
  started :
      (is_healthy : String → Bool) (hosts : Option (List String)) (s : R.State)
      → IsReachable R (start R is_healthy hosts s)
  called : (s t : R.State) → IsReachable R s → Call R s t → IsReachable R t

module _ (R : Redis Time) (D : IsDocumented R) where
  Call-IsExclusive : (s t : R.State) → Call R s t → IsExclusive R s → IsExclusive R t
  Call-IsExclusive _ _ (acquired hset_fails now s) h = acquire-IsExclusive R D hset_fails now s h
  Call-IsExclusive _ _ (released is_healthy addr s held) h =
      release-IsExclusive R D is_healthy addr s h held
  Call-IsExclusive _ _ (discovered is_healthy hosts s) h =
      discover_and_update-IsExclusive R D is_healthy hosts s h
  Call-IsExclusive _ _ (reclaimed is_healthy stale_timeout now s) h =
      reclaim_stuck_workers-IsExclusive R D is_healthy stale_timeout now s h

  start-IsExclusive :
      (is_healthy : String → Bool) (hosts : Option (List String)) (s : R.State)
      → IsExclusive R (start R is_healthy hosts s)
  unfolding start
  start-IsExclusive is_healthy hosts s =
      discover_and_update-IsExclusive R D is_healthy hosts (R.delete s)
        (λ a. rw (D.delete_list, D.delete_hash, D.delete_set) (unfold count in omega arith))

  -- After a start of the pool and any calls of its methods, in any order and with any answers of
  -- DNS, of the health checks and of the clock, in which a worker is released only while its lease
  -- is held: every worker is free once at most or leased, and not both, and only if it is active.
  pub IsReachable-IsExclusive : (s : R.State) → IsReachable R s → IsExclusive R s
  IsReachable-IsExclusive _ (started is_healthy hosts s) = start-IsExclusive is_healthy hosts s
  IsReachable-IsExclusive _ (called s t r c) = Call-IsExclusive s t c (IsReachable-IsExclusive s r)

  -- In a state that such calls lead to, a worker that `acquire` returns had no lease and was free
  -- once; it has a lease of the time of the call now, and is free no more.
  pub acquire_exclusive :
      (hset_fails : Bool) (now : Time) (s : R.State) (addr : String)
      → IsReachable R s
      → (acquire R hset_fails now s).0 ≡ some addr
      → (R.hget addr s ≡ none)
        × (count addr (R.lrange s) ≡ 1)
        × (R.hget addr (acquire R hset_fails now s).1 ≡ some now)
        × (count addr (R.lrange (acquire R hset_fails now s).1) ≡ 0)
  acquire_exclusive hset_fails now s addr r e =
      acquire_lem R D hset_fails now s addr (IsReachable-IsExclusive s r) e
