-- ===== src/Billing/Webhook/Audit.antt =====
-- What the webhook handler leaves in the two tables, on every branch and under every fault.
use autom.Prelude.{
  String, ◌≡◌, false, Option, none, some, arith, eqb, get_or, eq_iff, eq_refl, ◌==◌, refl, ap, ◌∙◌,
  if◌then◌else◌, is_some, ◌⊎◌, true,
}
use autom.Prelude.Result.{Exception}
use autom.Prelude.Table.{Table, IsLawful}
use autom.Billing.{SupabaseUser}
use autom.Billing.Webhook.{RevenueCatEvent, apply_event, process_revenuecat_event}
use autom.Billing.Webhook.Handler.{WebhookEvent, Response, Faults, State, revenuecat_webhook}
use autom.Billing.Webhook.Laws.{apply_event-id}

-- The audit row that tells of a response.
abbrev pub row_of : RevenueCatEvent → Response → WebhookEvent
row_of event r = record {
  provider = "revenuecat";
  event_type = event.type;
  user_id = event.app_user_id;
  processed = eqb r.status_code 200;
  processing_result = some (get_or r.message "Successfully processed");
  http_status_code = some r.status_code;
}

module _ (users : Table SupabaseUser) (events : Table WebhookEvent) (describe : Exception → String)
    (faults : Faults) (id : String) (event : RevenueCatEvent) (s : State users events) where
  -- If the table finds the rows that were saved in it and neither commit of the audit row fails,
  -- the row tells of the response that is sent.
  pub audit_lem :
      IsLawful events
      → faults.create ≡ none
      → faults.update ≡ none
      → let (r, t) = revenuecat_webhook users events describe faults id event s in
        events.find id t.1 ≡ some (row_of event r)
  unfolding revenuecat_webhook
  audit_lem L c u = grind (arith, L.find-save, eq_refl)

  users-revenuecat_webhook :
      (revenuecat_webhook users events describe faults id event s).1.0
      ≡ (process_revenuecat_event users faults.commit faults.refresh event s.0).1
  unfolding revenuecat_webhook
  users-revenuecat_webhook = ground arith

-- The users after an event, the commit not failing.
module _ {users : Table SupabaseUser} (L : IsLawful users) (event : RevenueCatEvent) where
  process_users :
      (refresh_error : Option Exception) (user : SupabaseUser) (rows : users.Rows)
      → users.find event.app_user_id rows ≡ some user
      → user.id ≡ event.app_user_id
      → (change : Option SupabaseUser) (j : String) → apply_event event user ≡ change
      → users.find j (process_revenuecat_event users none refresh_error event rows).1
        ≡ (if event.app_user_id == j then some (get_or change user) else users.find j rows)
  unfolding process_revenuecat_event
  process_users refresh_error user rows found same none j e =
      rw found (rw e (ground (arith, eq_iff event.app_user_id j)))
  process_users none user rows found same (some u) j e =
      let own = apply_event-id event user u e ∙ same in
      rw (found, e, L.find-save)
        (ap (λ (k : String). if k == j then some u else users.find j rows) own)
  process_users (some failed) user rows found same (some u) j e =
      let own = apply_event-id event user u e ∙ same in
      rw (found, e, L.find-save)
        (ap (λ (k : String). if k == j then some u else users.find j rows) own)

module _ (users : Table SupabaseUser) (events : Table WebhookEvent) (describe : Exception → String)
    (faults : Faults) (id : String) (event : RevenueCatEvent) (s : State users events) where
  -- If the table finds the rows that were saved in it, the commit of the user does not fail, and
  -- the user whom the event names is there under its id, then that user is what the event makes of
  -- it, and every other user is as before, whatever happens to the audit row.
  pub users_lem :
      IsLawful users
      → faults.commit ≡ none
      → (user : SupabaseUser) → users.find event.app_user_id s.0 ≡ some user
      → user.id ≡ event.app_user_id
      → (j : String)
      → users.find j (revenuecat_webhook users events describe faults id event s).1.0 ≡ (
          if event.app_user_id == j
          then some (get_or (apply_event event user) user)
          else users.find j s.0)
  users_lem L c user found same j =
      rw (users-revenuecat_webhook users events describe faults id event s, c)
        (process_users L event faults.refresh user s.0 found same (apply_event event user) j refl)

  -- A response other than 200 leaves the users as they were, unless the user was committed and then
  -- could not be read again: then the users are what they are after a response of 200.
  pub failure_users :
      eqb (revenuecat_webhook users events describe faults id event s).0.status_code 200 ≡ false
      → ((revenuecat_webhook users events describe faults id event s).1.0 ≡ s.0)
        ⊎ ((faults.commit ≡ none)
            × (is_some faults.refresh ≡ true)
            × ((revenuecat_webhook users events describe faults id event s).1.0
                ≡ (revenuecat_webhook users events describe
                    (record faults { refresh = none })
                    id
                    event
                    s).1.0))
  unfolding revenuecat_webhook process_revenuecat_event
  failure_users h = ground arith
