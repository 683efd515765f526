-- ===== src/BrowserPool/Tests.antt =====
-- The laws of the pool over Redis in memory.
use autom.Prelude.{
  String, ◌≡◌, refl, Bool, true, false, ◌&&◌, ◌||◌, Option, none, some, List, [], ◌∷◌, member,
}
use autom.Prelude.Redis.{count, is_set}
use autom.Prelude.Redis.Memory.{memory, oldest, members, with_free, memory-IsDocumented}
use autom.BrowserPool.{
  discover_workers, to_set, discover_and_update, add_workers, prune, reclaim_stuck_workers, release,
  acquire, start,
}
use autom.BrowserPool.Laws.{IsExclusive}
use autom.BrowserPool.Calls.{
  IsReachable, started, called, reclaimed, IsReachable-IsExclusive, acquire_exclusive,
}
use autom.BrowserPool.Active.{discover_and_update_lem}
use autom.BrowserPool.Faults.{late_release_shares, failed_lease_loses}

abbrev well : String → Bool
well addr = true

abbrev hosts : Option (List String)
hosts = some ("10.0.0.1" ∷ "10.0.0.2" ∷ "10.0.0.1" ∷ [])

abbrev blank : memory.State
unfolding memory
blank = record { free = []; active = []; busy = [] }

abbrev up : memory.State
up = start memory well hosts blank

up-IsReachable : IsReachable memory up
up-IsReachable = started well hosts blank

IsReachable-IsExclusive_example : IsExclusive memory (reclaim_stuck_workers memory well 300 1000 up)
IsReachable-IsExclusive_example =
    IsReachable-IsExclusive memory memory-IsDocumented
      (reclaim_stuck_workers memory well 300 1000 up)
      (called up (reclaim_stuck_workers memory well 300 1000 up) up-IsReachable
        (reclaimed well 300 1000 up))

got : (acquire memory false 7 up).0 ≡ some "http://10.0.0.2:6000"
unfolding memory acquire start discover_and_update discover_workers to_set add_workers prune oldest
    members
got = refl

acquire_exclusive_example :
    (memory.hget "http://10.0.0.2:6000" up ≡ none)
    × (count "http://10.0.0.2:6000" (memory.lrange up) ≡ 1)
    × (memory.hget "http://10.0.0.2:6000" (acquire memory false 7 up).1 ≡ some 7)
    × (count "http://10.0.0.2:6000" (memory.lrange (acquire memory false 7 up).1) ≡ 0)
acquire_exclusive_example =
    acquire_exclusive memory memory-IsDocumented false 7 up "http://10.0.0.2:6000" up-IsReachable
      got

discover_and_update_lem_example :
    memory.sismember "w" (discover_and_update memory well none up)
    ≡ (member "w" (discover_workers none) && (memory.sismember "w" up || true))
discover_and_update_lem_example =
    discover_and_update_lem memory memory-IsDocumented well none up "w"

-- Two free workers, and the one worker whose lease was reclaimed.
abbrev two : memory.State
unfolding memory
two = record { free = "w1" ∷ "w2" ∷ []; active = "w1" ∷ "w2" ∷ []; busy = [] }

abbrev one : memory.State
unfolding memory
one = record { free = "w" ∷ []; active = "w" ∷ []; busy = [] }

late_release_shares_example :
    let first = acquire memory false 7 (release memory well "w" one) in
    (first.0 ≡ some "w") × ((acquire memory false 8 first.1).0 ≡ some "w")
unfolding memory one
late_release_shares_example =
    late_release_shares memory memory-IsDocumented well "w" 7 8 one refl refl

popped : memory.brpop up ≡ some ("http://10.0.0.2:6000", (acquire memory true 7 up).1)
unfolding memory acquire start discover_and_update discover_workers to_set add_workers prune oldest
    members with_free
popped = refl

failed_lease_loses_example :
    ((acquire memory true 7 up).0 ≡ none)
    × (memory.sismember "http://10.0.0.2:6000" (acquire memory true 7 up).1 ≡ true)
    × (count "http://10.0.0.2:6000" (memory.lrange (acquire memory true 7 up).1) ≡ 0)
    × (is_set (memory.hget "http://10.0.0.2:6000" (acquire memory true 7 up).1) ≡ 0)
failed_lease_loses_example =
    failed_lease_loses memory memory-IsDocumented 7 up (acquire memory true 7 up).1
      "http://10.0.0.2:6000" (IsReachable-IsExclusive memory memory-IsDocumented up up-IsReachable)
      popped
