-- ===== src/Artifacts/Tests.antt =====
-- Files of a small store.
use autom.Prelude.{◌≡◌, refl, false, some, [], ◌∷◌}
use autom.Prelude.Result.{ok}
use autom.Prelude.Rows.{remove_row}
use autom.Artifacts.{Artifact, Content, Files, Env, upload_to_supabase, upload_artifact}
use autom.Artifacts.Laws.{AreBounded, empty, next, uploaded, IsReachable-AreBounded}

abbrev env : Env
env = record {
  storage_fails = false;
  mime_type = "text/plain";
  now = 100;
  new_id = "a1";
  new_uuid = "x";
}

abbrev no_files : Files
no_files = record { artifacts = []; bucket = [] }

abbrev note : Content
note = 104 ∷ 105 ∷ []

abbrev stored : Artifact
stored = record {
  id = "a1";
  file_path = "u1/x-note.txt";
  filename = "note.txt";
  user_id = "u1";
  mime_type = "text/plain";
  size_bytes = 2;
  expires_at = some 160;
  run_id = some "r1";
}

abbrev files : Files
files = record {
  artifacts = stored ∷ [];
  bucket = (record { path = "u1/x-note.txt"; content = note }) ∷ [];
}

upload_stores : upload_artifact env "u1" (some "r1") note "note.txt" 60 no_files ≡ ok files
unfolding upload_artifact upload_to_supabase remove_row
upload_stores = refl

IsReachable-AreBounded_example : AreBounded files
IsReachable-AreBounded_example = IsReachable-AreBounded files (
    next no_files files empty
      (uploaded env "u1" (some "r1") note "note.txt" 60 no_files files upload_stores))

abbrev later : Env
later = record env { now = 160 }
