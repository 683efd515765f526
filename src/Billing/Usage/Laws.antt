-- ===== src/Billing/Usage/Laws.antt =====
-- What the usage rows add up to.
use autom.Prelude.{
  ◌∙◌, ℕ, ◌&&◌, leb, ltb, ◌+◌, String, ◌≡◌, refl, Bool, true, false, List, [], ◌∷◌, arith, All,
  keep, Bool-cases, inl, inr, ◌==◌, ◌⊎◌, if◌then◌else◌,
}
use autom.Prelude.Result.{ok, >>=-eq-ok}
use autom.Billing.{Time}
use autom.Billing.Usage.{
  UserUsage, runs_of, minutes_of, voice_session_event, create_voice_session_event,
  automation_run_event, sum_of, in_window, totals, create_automation_run_event,
  update_automation_run_event, get_usage_between_dates, mark,
}

runs_of-totals :
    (rows : List UserUsage) → runs_of (totals rows) ≡ sum_of (λ r. r.automation_runs_count) rows
unfolding totals
runs_of-totals [] = refl
runs_of-totals (row ∷ rows) = refl

-- A run is counted once, exactly in the windows of its user that hold the time of the call.
pub runs_of-create :
    (id : String) (now : Time) (owner : String) (success : Bool) (user_id : String)
    (start_date end_date : Time) (rows : List UserUsage)
    → runs_of (
        get_usage_between_dates user_id start_date end_date
          (create_automation_run_event id now owner success rows))
      ≡ (if in_window user_id start_date end_date (automation_run_event id now owner success)
          then 1
          else 0)
        + runs_of (get_usage_between_dates user_id start_date end_date rows)
unfolding create_automation_run_event get_usage_between_dates
runs_of-create id now owner success user_id start_date end_date rows =
    let new = automation_run_event id now owner success in
    let kept = keep (in_window user_id start_date end_date) rows in
    elim (Bool-cases (in_window user_id start_date end_date new)) [
      | inl inside ↦ rw inside (
          rw (runs_of-totals (new ∷ kept), runs_of-totals kept)
            (unfold automation_run_event in refl))
      | inr outside ↦ rw outside (omega arith)
    ]

-- Successful and failed runs add up to the runs, in every row.
abbrev pub IsBalanced : List UserUsage → Type 0
IsBalanced rows =
    All (λ r. r.successful_automation_runs + r.failed_automation_runs ≡ r.automation_runs_count)
      rows

-- Every row with this id is that of one automation run.
abbrev pub IsRunRow : String → List UserUsage → Type 0
IsRunRow usage_id rows = All (λ r. (r.id == usage_id) ≡ true → r.automation_runs_count ≡ 1) rows

IsBalanced-create :
    (id : String) (now : Time) (owner : String) (success : Bool) (rows : List UserUsage)
    → IsBalanced rows
    → IsBalanced (create_automation_run_event id now owner success rows)
unfolding create_automation_run_event
IsBalanced-create id now owner true rows h = (refl, h)
IsBalanced-create id now owner false rows h = (refl, h)

mark_balance :
    (success : Bool) (r : UserUsage)
    → r.automation_runs_count ≡ 1
    → (mark success r).successful_automation_runs + (mark success r).failed_automation_runs
      ≡ (mark success r).automation_runs_count
unfolding mark
mark_balance true r h = omega arith
mark_balance false r h = omega arith

update_cases :
    (usage_id : String) (success : Bool) (row : UserUsage) (rows rows' : List UserUsage)
    → update_automation_run_event usage_id success (row ∷ rows) ≡ ok rows'
    → (((row.id == usage_id) ≡ true) × (rows' ≡ mark success row ∷ rows))
      ⊎ ((rest : List UserUsage) × (update_automation_run_event usage_id success rows ≡ ok rest)
          × (rows' ≡ row ∷ rest))
unfolding update_automation_run_event
update_cases usage_id success row rows rows' h = elim (Bool-cases (row.id == usage_id)) [
  | inl hit ↦ inl (hit, cc (rw hit at h))
  | inr miss ↦
      let (rest, found, built) = >>=-eq-ok _ _ (rw miss at h) in inr (rest, found, cc built)
]

-- Recording the outcome of a run keeps the rows balanced, if the id is that of a run.
pub update-IsBalanced :
    (usage_id : String) (success : Bool) (rows rows' : List UserUsage)
    → IsRunRow usage_id rows
    → IsBalanced rows
    → update_automation_run_event usage_id success rows ≡ ok rows'
    → IsBalanced rows'
update-IsBalanced usage_id success [] rows' ours b h = unfold update_automation_run_event in cc
update-IsBalanced usage_id success (row ∷ rows) rows' (own, ours) (here, b) h =
    elim (update_cases usage_id success row rows rows' h) [
      | inl (hit, e) ↦ rw e (mark_balance success row (own hit), b)
      | inr (rest, found, e) ↦
          rw e (here, update-IsBalanced usage_id success rows rest ours b found)
    ]

sum-mark :
    (success : Bool) (row : UserUsage) (rows : List UserUsage) (user_id : String)
    (start_date end_date : Time)
    → sum_of
        (λ r. r.automation_runs_count)
        (keep (in_window user_id start_date end_date) (mark success row ∷ rows))
      ≡ sum_of
          (λ r. r.automation_runs_count)
          (keep (in_window user_id start_date end_date) (row ∷ rows))
unfolding mark
sum-mark true row rows user_id start_date end_date =
    elim (Bool-cases (in_window user_id start_date end_date row)) [
      | inl inside ↦ rw inside refl
      | inr outside ↦ rw outside refl
    ]
sum-mark false row rows user_id start_date end_date =
    elim (Bool-cases (in_window user_id start_date end_date row)) [
      | inl inside ↦ rw inside refl
      | inr outside ↦ rw outside refl
    ]

sum-cons :
    (row : UserUsage) (rows rows' : List UserUsage) (user_id : String) (start_date end_date : Time)
    → sum_of (λ r. r.automation_runs_count) (keep (in_window user_id start_date end_date) rows')
      ≡ sum_of (λ r. r.automation_runs_count) (keep (in_window user_id start_date end_date) rows)
    → sum_of
        (λ r. r.automation_runs_count)
        (keep (in_window user_id start_date end_date) (row ∷ rows'))
      ≡ sum_of
          (λ r. r.automation_runs_count)
          (keep (in_window user_id start_date end_date) (row ∷ rows))
sum-cons row rows rows' user_id start_date end_date h =
    elim (Bool-cases (in_window user_id start_date end_date row)) [
      | inl inside ↦ rw inside (omega arith)
      | inr outside ↦ rw outside h
    ]

sum-update :
    (usage_id : String) (success : Bool) (rows rows' : List UserUsage) (user_id : String)
    (start_date end_date : Time)
    → update_automation_run_event usage_id success rows ≡ ok rows'
    → sum_of (λ r. r.automation_runs_count) (keep (in_window user_id start_date end_date) rows')
      ≡ sum_of (λ r. r.automation_runs_count) (keep (in_window user_id start_date end_date) rows)
sum-update usage_id success [] rows' user_id start_date end_date h =
    unfold update_automation_run_event in cc
sum-update usage_id success (row ∷ rows) rows' user_id start_date end_date h =
    elim (update_cases usage_id success row rows rows' h) [
      | inl (hit, e) ↦ rw e (sum-mark success row rows user_id start_date end_date)
      | inr (rest, found, e) ↦ rw e (
          sum-cons row rows rest user_id start_date end_date
            (sum-update usage_id success rows rest user_id start_date end_date found))
    ]

-- Recording the outcome of a run changes the count of no window.
pub runs_of-update :
    (usage_id : String) (success : Bool) (rows rows' : List UserUsage) (user_id : String)
    (start_date end_date : Time)
    → update_automation_run_event usage_id success rows ≡ ok rows'
    → runs_of (get_usage_between_dates user_id start_date end_date rows')
      ≡ runs_of (get_usage_between_dates user_id start_date end_date rows)
unfolding get_usage_between_dates
runs_of-update usage_id success rows rows' user_id start_date end_date h =
    rw
      (
        runs_of-totals (keep (in_window user_id start_date end_date) rows'),
        runs_of-totals (keep (in_window user_id start_date end_date) rows),
      )
      (sum-update usage_id success rows rows' user_id start_date end_date h)

minutes_of-totals :
    (rows : List UserUsage) → minutes_of (totals rows) ≡ sum_of (λ r. r.voice_agent_minutes) rows
unfolding totals
minutes_of-totals [] = refl
minutes_of-totals (row ∷ rows) = refl

minutes_of-cons :
    (row : UserUsage) (rows : List UserUsage)
    → minutes_of (totals (row ∷ rows)) ≡ row.voice_agent_minutes + minutes_of (totals rows)
minutes_of-cons row rows = rw (minutes_of-totals (row ∷ rows), minutes_of-totals rows) refl

runs_of-cons :
    (row : UserUsage) (rows : List UserUsage)
    → runs_of (totals (row ∷ rows)) ≡ row.automation_runs_count + runs_of (totals rows)
runs_of-cons row rows = rw (runs_of-totals (row ∷ rows), runs_of-totals rows) refl

-- A voice session adds its minutes exactly to the windows of its user that hold the time of the call,
-- and counts as a run in none.
pub create_voice_session_event_lem :
    (id : String) (now : Time) (owner : String) (minutes llm_tokens stt_minutes tts_characters : ℕ)
    (user_id : String) (start_date end_date : Time) (rows : List UserUsage)
    → let rows' =
        create_voice_session_event id now owner minutes llm_tokens stt_minutes tts_characters
          rows in
      (minutes_of (get_usage_between_dates user_id start_date end_date rows')
        ≡ (if owner == user_id && leb start_date now && ltb now end_date then minutes else 0)
          + minutes_of (get_usage_between_dates user_id start_date end_date rows))
      × (runs_of (get_usage_between_dates user_id start_date end_date rows')
          ≡ runs_of (get_usage_between_dates user_id start_date end_date rows))
unfolding create_voice_session_event voice_session_event get_usage_between_dates
create_voice_session_event_lem id now owner minutes llm stt tts user_id start_date end_date rows =
    let new = voice_session_event id now owner minutes llm stt tts in
    let kept = keep (in_window user_id start_date end_date) rows in
    elim (Bool-cases (owner == user_id && leb start_date now && ltb now end_date)) [
      | inl inside ↦ rw inside (minutes_of-cons new kept, runs_of-cons new kept ∙ omega arith)
      | inr outside ↦ rw outside (omega arith, refl)
    ]
