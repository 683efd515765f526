-- ===== src/Billing/Usage/Tests.antt =====
-- The laws of the usage rows at concrete rows.
use autom.Prelude.{◌≡◌, refl, true, false, List, [], ◌∷◌}
use autom.Prelude.Result.{ok}
use autom.Billing.Usage.{UserUsage, automation_run_event, update_automation_run_event}
use autom.Billing.Usage.Laws.{IsBalanced, update-IsBalanced}

abbrev rows : List UserUsage
unfolding automation_run_event
rows = automation_run_event "a" 10 "u1" true ∷ automation_run_event "b" 20 "u1" true ∷ []

abbrev updated : List UserUsage
unfolding automation_run_event
updated = automation_run_event "a" 10 "u1" true ∷ automation_run_event "b" 20 "u1" false ∷ []

update_lem : update_automation_run_event "b" false rows ≡ ok updated
unfolding update_automation_run_event automation_run_event
update_lem = refl

update-IsBalanced_example : IsBalanced updated
unfolding automation_run_event
update-IsBalanced_example =
    update-IsBalanced "b" false rows updated ((λ h. refl), ((λ h. refl), tt)) (refl, (refl, tt))
      update_lem
