-- ===== src/Billing/Usage.antt =====
-- aci/common/db/crud/usage.py over the rows of `UserUsage` (aci/common/db/sql_models.py), one row
-- for each event. The table is the list of its rows. Minutes are counted in a unit that makes them
-- whole numbers.
pub mod Laws
mod Tests
use autom.Prelude.{
  ℕ, ◌+◌, String, Bool, true, false, ◌&&◌, Option, none, some, List, [], ◌∷◌, ◌++◌, ◌==◌, ltb, leb,
  keep, if◌then◌else◌,
}
use autom.Prelude.Result.{Exception, value_error, Result, ok, err, ◌>>=◌}
use autom.Billing.{Time}

pub record UserUsage : Type 0 where
  pub id : String
  pub user_id : String
  pub voice_agent_minutes : ℕ
  pub automation_runs_count : ℕ
  pub successful_automation_runs : ℕ
  pub failed_automation_runs : ℕ
  pub llm_tokens_used : ℕ
  pub stt_audio_minutes : ℕ
  pub tts_characters_used : ℕ
  pub created_at : Time

-- The id and the time of creation are the defaults of the columns; they are given here.
unfoldable pub automation_run_event : String → Time → String → Bool → UserUsage
automation_run_event id now user_id success = record {
  id = id;
  user_id = user_id;
  voice_agent_minutes = 0;
  automation_runs_count = 1;
  successful_automation_runs = if success then 1 else 0;
  failed_automation_runs = if success then 0 else 1;
  llm_tokens_used = 0;
  stt_audio_minutes = 0;
  tts_characters_used = 0;
  created_at = now;
}

unfoldable pub create_automation_run_event :
    String → Time → String → Bool → List UserUsage → List UserUsage
unfolding automation_run_event
create_automation_run_event id now user_id success rows =
    automation_run_event id now user_id success ∷ rows

-- The two assignments to the row of a run whose outcome is known.
pub mark : Bool → UserUsage → UserUsage
mark true row = record row { successful_automation_runs = 1; failed_automation_runs = 0 }
mark false row = record row { successful_automation_runs = 0; failed_automation_runs = 1 }

unfoldable pub update_automation_run_event :
    String → Bool → List UserUsage → Result (List UserUsage)
unfolding mark
update_automation_run_event usage_id success [] = err value_error
update_automation_run_event usage_id success (row ∷ rows) =
    let rest = update_automation_run_event usage_id success rows in
    if row.id == usage_id then ok (mark success row ∷ rows) else do rows' ← rest; ok (row ∷ rows')

pub voice_session_event : String → Time → String → ℕ → ℕ → ℕ → ℕ → UserUsage
voice_session_event id now user_id minutes llm_tokens stt_minutes tts_characters = record {
  id = id;
  user_id = user_id;
  voice_agent_minutes = minutes;
  automation_runs_count = 0;
  successful_automation_runs = 0;
  failed_automation_runs = 0;
  llm_tokens_used = llm_tokens;
  stt_audio_minutes = stt_minutes;
  tts_characters_used = tts_characters;
  created_at = now;
}

pub create_voice_session_event :
    String → Time → String → ℕ → ℕ → ℕ → ℕ → List UserUsage → List UserUsage
unfolding voice_session_event
create_voice_session_event id now user_id minutes llm_tokens stt_minutes tts_characters rows =
    voice_session_event id now user_id minutes llm_tokens stt_minutes tts_characters ∷ rows

-- The sums that `get_usage_between_dates` returns.
pub record Totals : Type 0 where
  pub voice_agent_minutes : ℕ
  pub automation_runs_count : ℕ
  pub successful_automation_runs : ℕ
  pub failed_automation_runs : ℕ
  pub llm_tokens_used : ℕ
  pub stt_audio_minutes : ℕ
  pub tts_characters_used : ℕ

-- `func.sum(column)`
abbrev pub sum_of : (UserUsage → ℕ) → List UserUsage → ℕ
sum_of column [] = 0
sum_of column (row ∷ rows) = column row + sum_of column rows

-- The `filter` of the query.
abbrev pub in_window : String → Time → Time → UserUsage → Bool
in_window user_id start_date end_date row =
    row.user_id == user_id && leb start_date row.created_at && ltb row.created_at end_date

-- Over no rows the sums are NULL, and the result is None.
pub totals : List UserUsage → Option Totals
totals [] = none
totals (row ∷ rows) =
    let all = row ∷ rows in
    some (record {
      voice_agent_minutes = sum_of (λ r. r.voice_agent_minutes) all;
      automation_runs_count = sum_of (λ r. r.automation_runs_count) all;
      successful_automation_runs = sum_of (λ r. r.successful_automation_runs) all;
      failed_automation_runs = sum_of (λ r. r.failed_automation_runs) all;
      llm_tokens_used = sum_of (λ r. r.llm_tokens_used) all;
      stt_audio_minutes = sum_of (λ r. r.stt_audio_minutes) all;
      tts_characters_used = sum_of (λ r. r.tts_characters_used) all;
    })

unfoldable pub get_usage_between_dates : String → Time → Time → List UserUsage → Option Totals
unfolding totals
get_usage_between_dates user_id start_date end_date rows =
    totals (keep (in_window user_id start_date end_date) rows)

-- `stats.automation_runs_count if stats else 0`
abbrev pub runs_of : Option Totals → ℕ
runs_of none = 0
runs_of (some t) = t.automation_runs_count

abbrev pub minutes_of : Option Totals → ℕ
minutes_of none = 0
minutes_of (some t) = t.voice_agent_minutes
