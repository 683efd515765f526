-- ===== src/Artifacts/Laws.antt =====
-- Sizes, owners and expiry of the artifacts.
use autom.Prelude.{
  none, ℕ, ◌≤◌, String, ◌≡◌, sym, subst, ap, Bool, true, false, not, ◌&&◌, Option, some, List, [],
  ◌∷◌, ◌==◌, arith, map, keep, find, member, length, ltb, All, Bool-cases, inl, inr,
}
use autom.Prelude.Every.{All-keep, All-update_row}
use autom.Prelude.Result.{ok, other, value_error, >>=-eq-ok, ok-eq, raise_if-ok, or_raise}
use autom.Artifacts.{
  Artifact, Content, Files, Env, max_size_bytes, upload_to_supabase, path_of, upload_artifact,
  update_artifact, is_expired, cleanup_expired_artifacts, delete_from_storage,
}

abbrev pub IsBounded : Artifact → Type 0
IsBounded a = a.size_bytes ≤ 52428800

abbrev pub AreBounded : Files → Type 0
AreBounded files = All IsBounded files.artifacts

-- A call of the file manager that changes the files.
pub data Call : Files → Files → Type 0 where
  uploaded :
      (env : Env) (user_id : String) (run_id : Option String) (content : Content)
      (filename : String) (ttl_seconds : ℕ) (s t : Files)
      → upload_artifact env user_id run_id content filename ttl_seconds s ≡ ok t
      → Call s t
  updated :
      (env : Env) (artifact_id : String) (content : Content) (user_id : String) (s t : Files)
      → update_artifact env artifact_id content user_id s ≡ ok t
      → Call s t
  cleaned : (env : Env) (s : Files) → Call s (cleanup_expired_artifacts env s).0
  deleted :
      (env : Env) (bucket_name path : String) (s t : Files)
      → delete_from_storage env bucket_name path s ≡ ok t
      → Call s t

pub data IsReachable : Files → Type 0 where
  empty : IsReachable (record { artifacts = []; bucket = [] })
  next : (s t : Files) → IsReachable s → Call s t → IsReachable t

small_enough : (n : ℕ) → ltb max_size_bytes n ≡ false → n ≤ 52428800
small_enough n h = ground arith

upload_keeps :
    (env : Env) (path : String) (content : Content) (s t : Files)
    → upload_to_supabase env path content s ≡ ok t
    → t.artifacts ≡ s.artifacts
unfolding upload_to_supabase
upload_keeps env path content s t h =
    let (fine, made) = raise_if-ok env.storage_fails (other "RuntimeError") _ t h in
    sym (ap (λ x. x.artifacts) (ok-eq made))

Call-AreBounded : (s t : Files) → Call s t → AreBounded s → AreBounded t
unfolding upload_artifact update_artifact cleanup_expired_artifacts delete_from_storage
Call-AreBounded _ _ (uploaded env user_id run_id content filename ttl_seconds s t h) b =
    let (small, h1) = raise_if-ok (ltb max_size_bytes (length content)) value_error _ t h in
    let (up, f2, h2) =
      >>=-eq-ok (upload_to_supabase env (path_of env user_id filename) content s) _ h1 in
    let kept =
      subst (λ rows. All IsBounded rows)
        (sym (upload_keeps env (path_of env user_id filename) content s up f2)) b in
    subst AreBounded (ok-eq h2) (small_enough (length content) small, kept)
Call-AreBounded _ _ (updated env artifact_id content user_id s t h) b =
    let (a, f1, h1) =
      >>=-eq-ok
        (or_raise value_error (find (λ a. a.id == artifact_id && a.user_id == user_id) s.artifacts))
        _ h in
    let (small, h2) = raise_if-ok (ltb max_size_bytes (length content)) value_error _ t h1 in
    let (up, f3, h3) = >>=-eq-ok (upload_to_supabase env a.file_path content s) _ h2 in
    let kept =
      subst (λ rows. All IsBounded rows) (sym (upload_keeps env a.file_path content s up f3)) b in
    subst AreBounded (ok-eq h3) (
      All-update_row (λ x. x.id) IsBounded IsBounded a.id _ up.artifacts
        (λ x e o. small_enough (length content) small) (λ x o. o) kept)
Call-AreBounded _ _ (cleaned env s) b = elim (Bool-cases env.storage_fails) [
  | inl y ↦ rw y b
  | inr n ↦ rw n (
      All-keep IsBounded
        (λ a. not (member a.id (map (λ e. e.id) (keep (is_expired env.now) s.artifacts))))
        s.artifacts b)
]
Call-AreBounded _ _ (deleted env bucket_name path s t h) b =
    let (known, h1) =
      raise_if-ok (not (member bucket_name ("avatars" ∷ "artifacts" ∷ []))) value_error _ t h in
    let (fine, h2) = raise_if-ok env.storage_fails (other "RuntimeError") _ t h1 in
    subst AreBounded (ok-eq h2)
      (elim (Bool-cases (bucket_name == "artifacts")) [ inl y ↦ rw y b | inr n ↦ rw n b ])

-- After any calls of the file manager, no artifact is larger than 50 MB, that is 52428800 bytes.
pub IsReachable-AreBounded : (files : Files) → IsReachable files → AreBounded files
IsReachable-AreBounded _ empty = tt
IsReachable-AreBounded _ (next s t r c) = Call-AreBounded s t c (IsReachable-AreBounded s r)

-- The ids of the rows that a filter keeps.
abbrev kept_of : (Artifact → Bool) → List Artifact → List String
kept_of p xs = map (λ e. e.id) (keep p xs)

-- An artifact without an expiry, or whose expiry lies ahead.
abbrev pub is_live : ℕ → Artifact → Bool
is_live now a = elim a.expires_at [ none ↦ true | some time ↦ ltb now time ]

-- The ids are a key: each finds its row.
abbrev pub AreKeyed : List Artifact → Type 0
AreKeyed rows = All (λ a. find (λ b. b.id == a.id) rows ≡ some a) rows
