-- ===== src/Prelude/Redis/Memory.antt =====
-- Redis in memory: three lists, by which the documented laws can be met.
use Prim.Native.Nat.{ℕ}
use Prim.Native.String.{String}
use mathlib.Core.Path.{◌≡◌, refl, ap}
use mathlib.Core.Logic.{◌≢◌, inl, inr}
use mathlib.Core.Bool.{not, ◌&&◌}
use mathlib.Core.Option.{Option, none, some, some-injective}
use mathlib.Core.List.{List, [], ◌∷◌, ◌++◌, map}
use native.Mathlib.Omega.{arith}
use text.Mathlib.Text.{◌==◌}
use text.Mathlib.TextEquality.{eq_iff}
use autom.Prelude.Tests.{if◌then◌else◌, Bool-cases, Option-cases}
use autom.Prelude.Lists.{keep, member}
use autom.Prelude.Redis.{Redis, IsDocumented, count-drop, count, as_number, is_set}

pub record Keys : Type 0 where
  pub free : List String
  pub active : List String
  pub busy : List (String × ℕ)

-- The oldest entry of a list that grows at its head.
unfoldable pub oldest : List String → Option (String × List String)
oldest [] = none
oldest (a ∷ more) = elim (oldest more) [ none ↦ some (a, []) | some (b, rest) ↦ some (b, a ∷ rest) ]

unfoldable pub with_free : Keys → Option (String × List String) → Option (String × Keys)
with_free s none = none
with_free s (some (a, rest)) = some (a, record s { free = rest })

pub field : String → List (String × ℕ) → Option ℕ
field a [] = none
field a ((b, t) ∷ es) = if b == a then some t else field a es

pub without : String → List (String × ℕ) → List (String × ℕ)
without a = keep (λ e. not (e.0 == a))

-- Every field once, with the value that was set last.
pub fields : List (String × ℕ) → List (String × ℕ)
fields [] = []
fields ((a, t) ∷ es) = (a, t) ∷ without a (fields es)

unfoldable pub members : List String → List String
members [] = []
members (a ∷ more) = a ∷ keep (λ b. not (b == a)) (members more)

unfoldable pub memory : Redis ℕ
unfolding with_free field
memory = record {
  State = Keys;
  lrange = λ s. s.free;
  smembers = λ s. members s.active;
  sismember = λ a s. member a s.active;
  hget = λ a s. field a s.busy;
  hgetall = λ s. fields s.busy;
  delete = λ s. record { free = []; active = []; busy = [] };
  lpush = λ a s. record s { free = a ∷ s.free };
  brpop = λ s. with_free s (oldest s.free);
  lrem = λ a s. record s { free = keep (λ b. not (b == a)) s.free };
  sadd = λ a s. record s { active = a ∷ s.active };
  srem = λ a s. record s { active = keep (λ b. not (b == a)) s.active };
  hset = λ a t s. record s { busy = (a, t) ∷ s.busy };
  hdel = λ a s. record s { busy = without a s.busy };
}

oldest_cons : (a : String) (xs : List String) → oldest (a ∷ xs) ≢ none
unfolding oldest
oldest_cons a xs h = elim (Option-cases (oldest xs)) [
  | inl empty ↦ absurd (ground (arith, empty))
  | inr (found, e) ↦ absurd (ground (arith, e))
]

oldest-none : (xs : List String) → oldest xs ≡ none → xs ≡ []
unfolding oldest
oldest-none [] h = refl
oldest-none (a ∷ more) h = absurd (oldest_cons a more h)

oldest-some :
    (xs rest : List String) (a : String) → oldest xs ≡ some (a, rest) → xs ≡ rest ++ a ∷ []
unfolding oldest
oldest-some [] rest a h = absurd (ground (arith, h))
oldest-some (x ∷ xs) rest a h = elim (Option-cases (oldest xs)) [
  | inl empty ↦
      let p : some (x, []) ≡ some (a, rest) = rw empty at h in
      let q = some-injective (x, []) (a, rest) p in
      let last : x ≡ a = ap (λ y. y.0) q in
      let nothing : [] ≡ rest = ap (λ y. y.1) q in
      rw (oldest-none xs empty) (rw (← nothing) (ap (λ y. y ∷ []) last))
  | inr ((b, found), e) ↦
      let p : some (b, x ∷ found) ≡ some (a, rest) = rw e at h in
      let q = some-injective (b, x ∷ found) (a, rest) p in
      let last : b ≡ a = ap (λ y. y.0) q in
      let more : x ∷ found ≡ rest = ap (λ y. y.1) q in
      rw (oldest-some xs found b e) (rw (← more) (ap (λ y. x ∷ found ++ y ∷ []) last))
]

field-without :
    (a b : String) (es : List (String × ℕ))
    → field b (without a es) ≡ (if a == b then none else field b es)
unfolding field without
field-without a b [] = ground arith
field-without a b ((c, t) ∷ es) =
    ground (arith, field-without a b es, eq_iff c a, eq_iff c b, eq_iff a b)

member-drop :
    (a b : String) (xs : List String)
    → member b (keep (λ c. not (c == a)) xs) ≡ (not (a == b) && member b xs)
member-drop a b [] = ground arith
member-drop a b (c ∷ xs) = ground (arith, member-drop a b xs, eq_iff c a, eq_iff c b, eq_iff a b)

count-without :
    (a b : String) (es : List (String × ℕ))
    → count b (map (λ e. e.0) (without a es)) ≡ (if a == b then 0 else count b (map (λ e. e.0) es))
unfolding count without
count-without a b [] = ground arith
count-without a b ((c, t) ∷ es) =
    ground (arith, count-without a b es, eq_iff c a, eq_iff c b, eq_iff a b)

count-members : (a : String) (xs : List String) → count a (members xs) ≡ as_number (member a xs)
unfolding count members
count-members a [] = refl
count-members a (x ∷ xs) = elim (Bool-cases (x == a)) [
  | inl hit ↦ rw (count-drop x a (members xs), hit) refl
  | inr miss ↦ rw (count-drop x a (members xs), miss) (omega (arith, count-members a xs))
]

count-fields :
    (a : String) (es : List (String × ℕ))
    → count a (map (λ e. e.0) (fields es)) ≡ is_set (field a es)
unfolding count fields field
count-fields a [] = refl
count-fields a ((c, t) ∷ es) = elim (Bool-cases (c == a)) [
  | inl hit ↦ rw (count-without c a (fields es), hit) refl
  | inr miss ↦ rw (count-without c a (fields es), miss) (omega (arith, count-fields a es))
]

brpop_state :
    (s t : Keys) (a : String)
    → with_free s (oldest s.free) ≡ some (a, t)
    → (s.free ≡ t.free ++ a ∷ []) × (t.active ≡ s.active) × (t.busy ≡ s.busy)
unfolding with_free
brpop_state s t a h = elim (Option-cases (oldest s.free)) [
  | inl empty ↦ absurd (ground (arith, (rw empty at h)))
  | inr ((b, rest), e) ↦
      let p : some (b, record s { free = rest }) ≡ some (a, t) = rw e at h in
      let q = some-injective (b, record s { free = rest }) (a, t) p in
      let popped : record s { free = rest } ≡ t = ap (λ y. y.1) q in
      rw (← popped) (oldest-some s.free rest a (rw e (ap (λ y. some (y.0, rest)) q)), refl, refl)
]

brpop_empty : (s : Keys) → with_free s (oldest s.free) ≡ none → s.free ≡ []
unfolding with_free
brpop_empty s h = elim (Option-cases (oldest s.free)) [
  | inl empty ↦ oldest-none s.free empty
  | inr (found, e) ↦ absurd (ground (arith, (rw e at h)))
]

pub memory-IsDocumented : IsDocumented memory
unfolding memory
memory-IsDocumented = record {
  delete_list = λ s. refl;
  delete_set = λ s a. refl;
  delete_hash = λ s a. unfold field in refl;
  lpush_list = λ a s. refl;
  lpush_set = λ a s b. refl;
  lpush_hash = λ a s b. refl;
  brpop_none = brpop_empty;
  brpop_list = λ s t a h. (brpop_state s t a h).0;
  brpop_set = λ s t a h b. ap (member b) (brpop_state s t a h).1;
  brpop_hash = λ s t a h b. ap (field b) (brpop_state s t a h).2;
  lrem_list = λ a s. refl;
  lrem_set = λ a s b. refl;
  lrem_hash = λ a s b. refl;
  sadd_list = λ a s. refl;
  sadd_set = λ a s b. refl;
  sadd_hash = λ a s b. refl;
  srem_list = λ a s. refl;
  srem_set = λ a s b. member-drop a b s.active;
  srem_hash = λ a s b. refl;
  hset_list = λ a t s. refl;
  hset_set = λ a t s b. refl;
  hset_hash = λ a t s b. unfold field in refl;
  hdel_list = λ a s. refl;
  hdel_set = λ a s b. refl;
  hdel_hash = λ a s b. field-without a b s.busy;
  smembers_lem = λ s a. count-members a s.active;
  hgetall_lem = λ s a. count-fields a s.busy;
}
