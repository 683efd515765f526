-- ===== src/Lib.antt =====
-- The core logic of the server of autom8 (aci/): who may run an automation, when a recurring
-- automation is started, and what a run, a webhook and the meter of usage leave in the database.
--
-- The parts and how they interact. RevenueCat posts webhooks (aci/server/routes/webhooks.py), which
-- change the subscription columns of a user. The limits of the user's plan and the usage rows of the
-- billing period decide whether a request or a scheduled run goes through
-- (aci/server/dependencies.py, aci/common/db/crud/usage.py). The scheduler's beat
-- (aci/server/tasks/tasks.py) takes the automations that are due (aci/common/db/crud/automations.py),
-- checks the limit of each owner, creates a run (aci/common/db/crud/automation_runs.py), counts it
-- and queues a task; the task runs the agent, finalizes the run and corrects the usage row.
-- A user links accounts at apps (aci/server/routes/linked_accounts.py), by an API key or through the
-- OAuth2 flow of the provider; their credentials are encrypted in the table and refreshed when they
-- are used (aci/server/security_credentials_manager.py). An automation names the accounts that it
-- needs, and loses them, or is deleted, with them (aci/common/db/crud/automations.py).
-- The executors of the agent's functions (aci/server/function_executors) clean and complete the input
-- (aci/common/processor.py), fetch the credentials of the user's account and send the request. Runs
-- leave artifacts (aci/server/file_management.py).
-- Tools of the agent that need a browser take a worker from the pool (aci/server/browser_pool.py).
--
-- Which file models which part:
--   Prelude             results that may be an exception (Result), tables behind an interface with
--                       one law (Table), tables as lists of rows (Rows), texts, tests
--   Billing             `SupabaseUser` and `SubscriptionStatus`
--   Billing/Webhook     `_process_revenuecat_event` as `apply_event` and `process_revenuecat_event`;
--                       Handler is `revenuecat_webhook` with its audit row
--   Billing/Usage       the functions of crud/usage.py over the list of `UserUsage` rows
--   Billing/Limits      `_get_user_limits`, `_get_subscribed_context_internal`, `UsageLimiter`
--   Automations         the rows of automations and runs, and the state `Db` of the worker
--   Automations/Runs    `create_run` and `finalize_run`
--   Automations/Due     `get_due_recurring_automations`
--   Automations/Scheduler   `schedule_due_automations`
--   Automations/Execution   `execute_automation`
--   Automations/Worker  the beat and the tasks that it queues, one after another
--   Automations/Crud    the functions of crud/automations.py; Lists is the order and the page of a list
--   Automations/Routes  the handlers of aci/server/routes/automations.py; Unlink is the deletion of a
--                       linked account with the automations that need it
--   Automations/Routes/Others   what the requests of a user leave of other users' automations
--   Automations/Routes/Runs     the handlers of aci/server/routes/automation_runs.py
--   Accounts            apps, configurations and linked accounts, the state `Store`
--   Accounts/Credentials    the dump and validation of credentials; Column is the encrypted column type
--   Accounts/OAuth2     `OAuth2Manager`
--   Accounts/Manager    security_credentials_manager.py: reading, refreshing, writing credentials
--   Accounts/Tables     the functions of crud/linked_accounts.py
--   Accounts/Routes     the handlers of aci/server/routes/linked_accounts.py; Links and Steps are their
--                       effects on the store as steps, Flow is the two halves of an OAuth2 link,
--                       and Stored what the next query finds
--   Artifacts           `FileManager` of aci/server/file_management.py
--   BrowserPool         `ResilientBrowserPool` of aci/server/browser_pool.py over Prelude/Redis
--   Functions           JSON values; Nulls is `remove_none_values`, Schema the injection of hidden
--                       defaults (aci/common/processor.py) and the common validation of a schema
--                       (aci/common/validator.py), Visible is `filter_visible_properties`
--   Functions/Execution     `execute_function`, the executors; Rest is the request that they build
--
-- Conventions. A time is a number of milliseconds since the epoch; that of a token or an artifact is
-- a number of seconds. In the webhook and in the
-- scheduler a commit that fails is a field of a record of faults (`Faults`, `Env`), so the
-- theorems on these functions cover the failures too; in the task `execute_automation` the commits
-- are taken to succeed. Ids and times that the code takes from uuid and the clock are arguments.
-- Every recursion is on a list or a tree, so no fuel is needed. Libraries are parameters: the
-- tables of the webhook are a `Table` with the law that a row that was saved is found, Redis is a
-- record of commands with what its documentation says of them, croniter is the function
-- `get_prev`, and the agent is its outcome. AES-GCM, JSON Web Tokens, the OAuth2 client, Jinja,
-- jsonschema and the functions on URLs are functions, with what is needed of them as hypotheses.
--
-- Not modelled: the agent and its tools, avatars, the encryption of security schemes, the rewriting of
-- the redirect of one provider, how the answer to a request is trimmed, the app connectors and the JSON catalogue of apps, search
-- and embeddings, the voice agent, the command line, the middleware, logging, and the signature check
-- of the webhook. Rows are read and written one request at a time: transactions that overlap are not
-- modelled. Voice minutes are whole numbers of a small unit, and lower case is that of ASCII.
pub mod Prelude
pub mod Billing
pub mod Automations
pub mod Accounts
pub mod Artifacts
pub mod BrowserPool
pub mod Functions
