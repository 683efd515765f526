-- ===== src/Prelude/Redis.antt =====
-- The commands of Redis that the program uses, on the three keys of one pool: a list, a set and a
-- hash. Redis is a service, so the commands are a parameter of the code, and `IsDocumented` states
-- what their documentation says.
pub mod Memory
use Prim.Native.Nat.{ℕ, ◌+◌}
use Prim.Native.String.{String}
use mathlib.Core.Path.{◌≡◌}
use mathlib.Core.Bool.{Bool, true, false, not, ◌&&◌, ◌||◌}
use mathlib.Core.Option.{Option, none, some}
use mathlib.Core.List.{List, [], ◌∷◌, ◌++◌, map}
use native.Mathlib.Omega.{arith}
use text.Mathlib.Text.{◌==◌}
use text.Mathlib.TextEquality.{eq_iff}
use autom.Prelude.Tests.{if◌then◌else◌}
use autom.Prelude.Lists.{keep}

pub record Redis (Time : Type 0) : Type 1 where
  pub State : Type 0
  -- what the keys hold
  pub lrange : State → List String
  pub smembers : State → List String
  pub sismember : String → State → Bool
  pub hget : String → State → Option Time
  pub hgetall : State → List (String × Time)
  -- the commands that write; `delete` is DEL of the three keys
  pub delete : State → State
  pub lpush : String → State → State
  pub brpop : State → Option (String × State)
  pub lrem : String → State → State
  pub sadd : String → State → State
  pub srem : String → State → State
  pub hset : String → Time → State → State
  pub hdel : String → State → State

-- How often a text is in a list.
unfoldable pub count : String → List String → ℕ
count a [] = 0
count a (b ∷ bs) = (if b == a then 1 else 0) + count a bs

pub count-drop :
    (a b : String) (xs : List String)
    → count b (keep (λ c. not (c == a)) xs) ≡ (if a == b then 0 else count b xs)
unfolding count
count-drop a b [] = ground arith
count-drop a b (x ∷ xs) = ground (arith, count-drop a b xs, eq_iff x a, eq_iff x b, eq_iff a b)

abbrev pub as_number : Bool → ℕ
as_number true = 1
as_number false = 0

abbrev pub is_set {ℓ} : {A : Type ℓ} → Option A → ℕ
is_set none = 0
is_set (some a) = 1

-- A command leaves two of the three keys alone.
module _ {Time : Type 0} (R : Redis Time) where
  abbrev pub SameSet : R.State → R.State → Type 0
  SameSet s t = (a : String) → R.sismember a t ≡ R.sismember a s

  abbrev pub SameHash : R.State → R.State → Type 0
  SameHash s t = (a : String) → R.hget a t ≡ R.hget a s

pub record IsDocumented {Time : Type 0} (R : Redis Time) : Type 0 where
  pub delete_list : (s : R.State) → R.lrange (R.delete s) ≡ []
  pub delete_set : (s : R.State) (a : String) → R.sismember a (R.delete s) ≡ false
  pub delete_hash : (s : R.State) (a : String) → R.hget a (R.delete s) ≡ none
  pub lpush_list : (a : String) (s : R.State) → R.lrange (R.lpush a s) ≡ a ∷ R.lrange s
  pub lpush_set : (a : String) (s : R.State) → SameSet R s (R.lpush a s)
  pub lpush_hash : (a : String) (s : R.State) → SameHash R s (R.lpush a s)
  pub brpop_none : (s : R.State) → R.brpop s ≡ none → R.lrange s ≡ []
  pub brpop_list :
      (s t : R.State) (a : String) → R.brpop s ≡ some (a, t) → R.lrange s ≡ R.lrange t ++ a ∷ []
  pub brpop_set : (s t : R.State) (a : String) → R.brpop s ≡ some (a, t) → SameSet R s t
  pub brpop_hash : (s t : R.State) (a : String) → R.brpop s ≡ some (a, t) → SameHash R s t
  pub lrem_list :
      (a : String) (s : R.State) → R.lrange (R.lrem a s) ≡ keep (λ b. not (b == a)) (R.lrange s)
  pub lrem_set : (a : String) (s : R.State) → SameSet R s (R.lrem a s)
  pub lrem_hash : (a : String) (s : R.State) → SameHash R s (R.lrem a s)
  pub sadd_list : (a : String) (s : R.State) → R.lrange (R.sadd a s) ≡ R.lrange s
  pub sadd_set :
      (a : String) (s : R.State) (b : String)
      → R.sismember b (R.sadd a s) ≡ (a == b || R.sismember b s)
  pub sadd_hash : (a : String) (s : R.State) → SameHash R s (R.sadd a s)
  pub srem_list : (a : String) (s : R.State) → R.lrange (R.srem a s) ≡ R.lrange s
  pub srem_set :
      (a : String) (s : R.State) (b : String)
      → R.sismember b (R.srem a s) ≡ (not (a == b) && R.sismember b s)
  pub srem_hash : (a : String) (s : R.State) → SameHash R s (R.srem a s)
  pub hset_list : (a : String) (t : Time) (s : R.State) → R.lrange (R.hset a t s) ≡ R.lrange s
  pub hset_set : (a : String) (t : Time) (s : R.State) → SameSet R s (R.hset a t s)
  pub hset_hash :
      (a : String) (t : Time) (s : R.State) (b : String)
      → R.hget b (R.hset a t s) ≡ (if a == b then some t else R.hget b s)
  pub hdel_list : (a : String) (s : R.State) → R.lrange (R.hdel a s) ≡ R.lrange s
  pub hdel_set : (a : String) (s : R.State) → SameSet R s (R.hdel a s)
  pub hdel_hash :
      (a : String) (s : R.State) (b : String)
      → R.hget b (R.hdel a s) ≡ (if a == b then none else R.hget b s)
  -- SMEMBERS and HGETALL list every member and every field once.
  pub smembers_lem :
      (s : R.State) (a : String) → count a (R.smembers s) ≡ as_number (R.sismember a s)
  pub hgetall_lem :
      (s : R.State) (a : String) → count a (map (λ e. e.0) (R.hgetall s)) ≡ is_set (R.hget a s)
