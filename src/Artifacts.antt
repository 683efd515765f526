-- ===== src/Artifacts.antt =====
-- `FileManager` of aci/server/file_management.py: the artifacts that runs leave, in the table
-- `artifacts` and in the bucket of the storage.
pub mod Laws
mod Tests
use Prim.Native.String.{◌++◌ as ◌<>◌}
use autom.Prelude.{
  ℕ, ◌+◌, ◌*◌, String, Bool, true, false, not, ◌&&◌, Option, none, some, List, [], ◌∷◌, ◌==◌, map,
  keep, find, any, member, length, ltb, leb, get_or, if◌then◌else◌,
}
use autom.Prelude.Rows.{find_row, update_row, remove_row}
use autom.Prelude.Result.{
  Exception, http, value_error, other, Result, ok, err, ◌>>=◌, ◌>>◌, raise_if, or_raise,
}

-- A row of the table. A time is a number of seconds.
pub record Artifact : Type 0 where
  pub id : String
  pub file_path : String
  pub filename : String
  pub user_id : String
  pub mime_type : String
  pub size_bytes : ℕ
  pub expires_at : Option ℕ
  pub run_id : Option String

-- A file as its bytes, and an object of the bucket.
abbrev pub Content : Type 0
Content = List ℕ

pub record Object : Type 0 where
  pub path : String
  pub content : Content

pub record Files : Type 0 where
  pub artifacts : List Artifact
  pub bucket : List Object

-- What the world decides in a call: whether the storage raises a StorageException, the type that is
-- detected, the time, and the ids that uuid gives.
pub record Env : Type 0 where
  pub storage_fails : Bool
  pub mime_type : String
  pub now : ℕ
  pub new_id : String
  pub new_uuid : String

abbrev pub max_size_bytes : ℕ
max_size_bytes = 50 * 1024 * 1024

-- `upload` with "upsert": an object of that path is replaced.
unfoldable pub upload_to_supabase : Env → String → Content → Files → Result Files
upload_to_supabase env path content files = do
  raise_if env.storage_fails (other "RuntimeError")
  ok (record files {
    bucket =
        (record { path = path; content = content }) ∷ remove_row (λ o. o.path) path files.bucket;
  })

-- The path in the bucket.
abbrev pub path_of : Env → String → String → String
path_of env user_id filename = user_id <> ("/" <> (env.new_uuid <> ("-" <> filename)))

unfoldable pub upload_artifact :
    Env → String → Option String → Content → String → ℕ → Files → Result Files
upload_artifact env user_id run_id content filename ttl_seconds files = do
  raise_if (ltb max_size_bytes (length content)) value_error
  uploaded ← upload_to_supabase env (path_of env user_id filename) content files
  ok (record uploaded {
    artifacts =
        (record {
          id = env.new_id;
          file_path = path_of env user_id filename;
          filename = filename;
          user_id = user_id;
          mime_type = env.mime_type;
          size_bytes = length content;
          expires_at = some (env.now + ttl_seconds);
          run_id = run_id;
        })
        ∷ uploaded.artifacts;
  })

unfoldable pub update_artifact : Env → String → Content → String → Files → Result Files
update_artifact env artifact_id content user_id files = do
  artifact ←
      or_raise value_error (find (λ a. a.id == artifact_id && a.user_id == user_id) files.artifacts)
  raise_if (ltb max_size_bytes (length content)) value_error
  uploaded ← upload_to_supabase env artifact.file_path content files
  ok (record uploaded {
    artifacts =
        update_row (λ a. a.id) artifact.id
          (λ a. record a { size_bytes = length content; mime_type = env.mime_type })
          uploaded.artifacts;
  })

-- `user_id is not None and file_record.user_id != user_id`
abbrev pub is_denied : Option String → Artifact → Bool
is_denied none artifact = false
is_denied (some user_id) artifact = not (artifact.user_id == user_id)

-- The path whose signed URL is read, and the type. The expiry of the row is not looked at.
unfoldable pub read_artifact : Env → String → Option String → Files → Result (String × String)
read_artifact env file_id user_id files = do
  artifact ← or_raise value_error (find (λ a. a.id == file_id) files.artifacts)
  raise_if (is_denied user_id artifact) value_error
  raise_if env.storage_fails value_error
  ok (artifact.file_path, artifact.mime_type)

-- `Artifact.expires_at <= current_time`, which NULL is not.
abbrev pub is_expired : ℕ → Artifact → Bool
is_expired now artifact = elim artifact.expires_at [ none ↦ false | some time ↦ leb time now ]

-- `remove(paths)`
abbrev pub remove_objects : List String → List Object → List Object
remove_objects paths bucket = keep (λ o. not (member o.path paths)) bucket

-- The files after the call, the number of artifacts deleted and the number that failed. Where nothing
-- has expired the storage is not asked.
unfoldable pub cleanup_expired_artifacts : Env → Files → Files × (ℕ × ℕ)
cleanup_expired_artifacts env files =
    let expired = keep (is_expired env.now) files.artifacts in
    if env.storage_fails then (files, (0, length expired)) else (
      record files {
        artifacts = keep (λ a. not (member a.id (map (λ e. e.id) expired))) files.artifacts;
        bucket = remove_objects (map (λ e. e.file_path) expired) files.bucket;
      },
      (length expired, 0),
    )

-- `delete_from_storage`
unfoldable pub delete_from_storage : Env → String → String → Files → Result Files
delete_from_storage env bucket_name path files = do
  raise_if (not (member bucket_name ("avatars" ∷ "artifacts" ∷ []))) value_error
  raise_if env.storage_fails (other "RuntimeError")
  ok (
      if bucket_name == "artifacts"
      then (record files { bucket = remove_objects (path ∷ []) files.bucket })
      else files)
