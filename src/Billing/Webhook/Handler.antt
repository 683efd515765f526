-- ===== src/Billing/Webhook/Handler.antt =====
-- `revenuecat_webhook` of aci/server/routes/webhooks.py, with the audit rows of
-- aci/common/db/crud/webhook_events.py.
use autom.Prelude.{ℕ, String, Bool, true, false, Option, none, some}
use autom.Prelude.Result.{Exception, Result, ok, err}
use autom.Prelude.Table.{Table}
use autom.Billing.{SupabaseUser}
use autom.Billing.Webhook.{RevenueCatEvent, process_revenuecat_event}

pub record WebhookEvent : Type 0 where
  pub provider : String
  pub event_type : String
  pub user_id : String
  pub processed : Bool
  pub processing_result : Option String
  pub http_status_code : Option ℕ

pub record Response : Type 0 where
  pub status_code : ℕ
  pub status : String
  pub message : Option String

-- What each of the three commits of the handler raises, if it raises, and the refresh of the user
-- after its commit.
pub record Faults : Type 0 where
  pub create : Option Exception
  pub commit : Option Exception
  pub refresh : Option Exception
  pub update : Option Exception

module _ (users : Table SupabaseUser) (events : Table WebhookEvent) where
  -- `crud.webhook_events.create_event`: the new row has the id that is given here.
  create_event : String → RevenueCatEvent → events.Rows → events.Rows
  create_event id event rows =
      events.save id
        (record {
          provider = "revenuecat";
          event_type = event.type;
          user_id = event.app_user_id;
          processed = false;
          processing_result = none;
          http_status_code = none;
        })
        rows

  -- The first `try` of the handler: the id of the row, or none where storing it failed.
  store_event :
      Option Exception → String → RevenueCatEvent → events.Rows → Option String × events.Rows
  unfolding create_event
  store_event (some e) id event rows = (none, rows)
  store_event none id event rows = (some id, create_event id event rows)

  -- `crud.webhook_events.update_event_status` with a result and a code.
  update_found : String → Bool → String → ℕ → Option WebhookEvent → events.Rows → events.Rows
  update_found id processed result code none rows = rows
  update_found id processed result code (some row) rows =
      events.save id
        (record row {
          processed = processed;
          processing_result = some result;
          http_status_code = some code;
        })
        rows

  update_event_status : String → Bool → String → ℕ → events.Rows → events.Rows
  unfolding update_found
  update_event_status id processed result code rows =
      update_found id processed result code (events.find id rows) rows

  -- `if event_id:` and the `try` around the update. An update that fails leaves the row.
  try_update : Option Exception → Option String → Bool → String → ℕ → events.Rows → events.Rows
  unfolding update_event_status
  try_update fault none processed result code rows = rows
  try_update (some e) (some id) processed result code rows = rows
  try_update none (some id) processed result code rows =
      update_event_status id processed result code rows

  abbrev pub State : Type 0
  State = users.Rows × events.Rows

  -- The rest of the handler, from the outcome of `_process_revenuecat_event`. `describe` is `str`
  -- of an exception.
  respond :
      (Exception → String)
      → Option Exception
      → Option String
      → Result (Unit {0}) × users.Rows
      → events.Rows
      → Response × State
  unfolding try_update
  respond describe fault event_id (ok done, us) es = (
    record { status_code = 200; status = "success"; message = none },
    (us, try_update fault event_id true "Successfully processed" 200 es),
  )
  respond describe fault event_id (err e, us) es = (
    record { status_code = 500; status = "error"; message = some (describe e) },
    (us, try_update fault event_id false (describe e) 500 es),
  )

  unfoldable pub revenuecat_webhook :
      (Exception → String) → Faults → String → RevenueCatEvent → State → Response × State
  unfolding store_event respond
  revenuecat_webhook describe faults id event (us, es) =
      let (event_id, stored) = store_event faults.create id event es in
      respond describe faults.update event_id
        (process_revenuecat_event users faults.commit faults.refresh event us) stored
