-- ===== src/Billing.antt =====
-- The subscription state of a user: `SupabaseUser` of aci/common/db/sql_models.py and
-- `SubscriptionStatus` of aci/common/enums.py.
pub mod Usage
pub mod Limits
pub mod Webhook
use autom.Prelude.{ℕ, String, Bool, Option}

pub data SubscriptionStatus : Type 0 where
  active trialing cancelled unpaid expired : SubscriptionStatus

-- A time is in milliseconds since the epoch, in UTC.
abbrev pub Time : Type 0
Time = ℕ

-- The columns that the program's code reads or writes.
pub record SupabaseUser : Type 0 where
  pub id : String
  pub subscription_status : Option SubscriptionStatus
  pub subscription_product_id : Option String
  pub subscription_expires_at : Option Time
  pub subscription_period_starts_at : Option Time
  pub trial_ends_at : Option Time
  pub is_trial : Bool
