-- ===== src/Automations/Due.antt =====
-- `get_due_recurring_automations` of aci/common/db/crud/automations.py. croniter is a library: what
-- `croniter(schedule, now).get_prev(datetime)` returns or raises is the parameter `get_prev`.
pub mod Laws
use autom.Prelude.{
  String, Bool, true, false, not, ◌&&◌, List, [], ◌∷◌, ltb, keep, is_some, get_or, if◌then◌else◌,
}
use autom.Prelude.Result.{Result, ok, ◌>>=◌}
use autom.Billing.{Time}
use autom.Automations.{RunStatus, in_progress, Automation, Db}

abbrev pub is_in_progress : RunStatus → Bool
is_in_progress in_progress = true
is_in_progress _ = false

-- The `where` of the query.
abbrev pub is_candidate : Automation → Bool
is_candidate a =
    a.is_recurring && a.active && not (is_in_progress a.last_run_status) && is_some a.cron_schedule

module _ (get_prev : String → Time → Result Time) where
  -- The loop over the candidates. The base of an automation that never ran is 1970.
  select_due : Time → List Automation → Result (List Automation)
  select_due now [] = ok []
  select_due now (automation ∷ rest) = do
    previous_run_time ← get_prev (get_or automation.cron_schedule "") now
    due ← select_due now rest
    ok (if ltb (get_or automation.last_run_at 0) previous_run_time then automation ∷ due else due)

  unfoldable pub get_due_recurring_automations : Time → Db → Result (List Automation)
  unfolding select_due
  get_due_recurring_automations now db = select_due now (keep is_candidate db.automations)
