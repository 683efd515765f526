-- ===== src/Billing/Webhook/Laws.antt =====
-- What a RevenueCat event does to a user: `apply_event` of the parent.
use autom.Prelude.{
  ◌≤◌, ◌≡◌, ◌≢◌, true, false, Option, none, some, List, [], ◌∷◌, arith, get_or, All, refl, inl, inr,
  Bool-cases, ◌⊎◌,
}
use autom.Billing.{active, trialing, cancelled, expired, Time, SupabaseUser}
use autom.Billing.Webhook.{
  RevenueCatEvent, Kind, granting, cancellation, expiration, apply_kind, grant, is_trial_period,
  apply_event, event_kind, is_stale, other_day,
}

apply_kind_idempotent :
    (k : Kind) (event : RevenueCatEvent) (user user' : SupabaseUser)
    → apply_kind k event user ≡ some user'
    → apply_kind k event user' ≡ some user'
unfolding apply_kind
apply_kind_idempotent granting event user user' h = ground arith
apply_kind_idempotent _ event user user' h = ground arith

-- An event that is applied to a user is applied once more if it is delivered again, and leaves the
-- user as the first delivery did.
pub apply_event_idempotent :
    (event : RevenueCatEvent) (user user' : SupabaseUser)
    → apply_event event user ≡ some user'
    → apply_event event user' ≡ some user'
unfolding apply_event
apply_event_idempotent event = apply_kind_idempotent (event_kind event) event

-- The trial flag agrees with the status.
pub record IsConsistent (user : SupabaseUser) : Type 0 where
  pub on_trial : user.subscription_status ≡ some trialing → user.is_trial ≡ true
  pub paid : user.subscription_status ≡ some active → user.is_trial ≡ false
  pub ended : user.subscription_status ≡ some expired → user.is_trial ≡ false

apply_kind-IsConsistent :
    (k : Kind) (event : RevenueCatEvent) (user user' : SupabaseUser)
    → IsConsistent user
    → apply_kind k event user ≡ some user'
    → IsConsistent user'
unfolding apply_kind
apply_kind-IsConsistent granting event user user' c h = record {
  on_trial = λ p. ground arith;
  paid = λ p. ground arith;
  ended = λ p. ground arith;
}
apply_kind-IsConsistent _ event user user' c h = record {
  on_trial = λ p. ground (arith, c.on_trial);
  paid = λ p. ground (arith, c.paid);
  ended = λ p. ground (arith, c.ended);
}

-- If the trial flag of a user agrees with the status, it still does after any event that is applied.
pub apply_event-IsConsistent :
    (event : RevenueCatEvent) (user user' : SupabaseUser)
    → IsConsistent user
    → apply_event event user ≡ some user'
    → IsConsistent user'
unfolding apply_event
apply_event-IsConsistent event = apply_kind-IsConsistent (event_kind event) event

-- The state after a list of events; an event that is ignored changes nothing.
abbrev pub apply_all : List RevenueCatEvent → SupabaseUser → SupabaseUser
apply_all [] user = user
apply_all (event ∷ events) user = apply_all events (get_or (apply_event event user) user)

-- The first time is not after the second, and stays known.
abbrev pub NotAfter : Option Time → Option Time → Type 0
NotAfter none t = Unit
NotAfter (some a) none = ⊥
NotAfter (some a) (some b) = a ≤ b

NotAfter-refl : (t : Option Time) → NotAfter t t
NotAfter-refl none = tt
NotAfter-refl (some a) = omega arith

NotAfter-trans : (s t u : Option Time) → NotAfter s t → NotAfter t u → NotAfter s u
NotAfter-trans none t u p q = tt
NotAfter-trans (some a) none u p q = absurd p
NotAfter-trans (some a) (some b) none p q = q
NotAfter-trans (some a) (some b) (some c) p q = omega arith

abbrev pub HasExpiry : RevenueCatEvent → Type 0
HasExpiry event = event.expiration_date_ms ≢ none

is_stale-NotAfter :
    (stored event : Option Time)
    → is_stale stored event ≡ false
    → event ≢ none
    → NotAfter stored event
unfolding is_stale
is_stale-NotAfter none event h known = tt
is_stale-NotAfter (some a) none h known = absurd (known refl)
is_stale-NotAfter (some a) (some b) h known = ground arith

granting-NotAfter :
    (event : RevenueCatEvent) (user : SupabaseUser)
    → HasExpiry event
    → NotAfter user.subscription_expires_at
        (get_or (apply_kind granting event user) user).subscription_expires_at
unfolding apply_kind
granting-NotAfter event user h =
    elim (Bool-cases (is_stale user.subscription_expires_at event.expiration_date_ms)) [
      | inl stale ↦ rw stale (NotAfter-refl user.subscription_expires_at)
      | inr fresh ↦ rw fresh (is_stale-NotAfter _ _ fresh h)
    ]

-- Only an event that grants access writes the expiry.
expiry_kept :
    (k : Kind) (event : RevenueCatEvent) (user : SupabaseUser)
    → k ≢ granting
    → (get_or (apply_kind k event user) user).subscription_expires_at ≡ user.subscription_expires_at
unfolding apply_kind
expiry_kept granting event user h = absurd (h refl)
expiry_kept _ event user h = ground arith

apply_kind-NotAfter :
    (k : Kind) (event : RevenueCatEvent) (user : SupabaseUser)
    → HasExpiry event
    → NotAfter user.subscription_expires_at
        (get_or (apply_kind k event user) user).subscription_expires_at
apply_kind-NotAfter granting event user h = granting-NotAfter event user h
apply_kind-NotAfter k event user h =
    rw (expiry_kept k event user (λ e. cc)) (NotAfter-refl user.subscription_expires_at)

-- Whatever events arrive in whatever order, if each names an expiry, then the expiry that is stored
-- for the user at the end is not earlier than at the start, and is known if it was.
pub apply_all-NotAfter :
    (events : List RevenueCatEvent) (user : SupabaseUser)
    → All HasExpiry events
    → NotAfter user.subscription_expires_at (apply_all events user).subscription_expires_at
unfolding apply_event
apply_all-NotAfter [] user h = NotAfter-refl user.subscription_expires_at
apply_all-NotAfter (event ∷ events) user (h, hs) =
    NotAfter-trans user.subscription_expires_at _ _
      (apply_kind-NotAfter (event_kind event) event user h)
      (apply_all-NotAfter events (get_or (apply_event event user) user) hs)

expires_only_by_kind :
    (k : Kind) (event : RevenueCatEvent) (user user' : SupabaseUser)
    → apply_kind k event user ≡ some user'
    → user.subscription_status ≢ some expired
    → user'.subscription_status ≡ some expired
    → (k ≡ expiration) × (other_day user.subscription_expires_at event.expiration_date_ms ≡ false)
unfolding apply_kind
expires_only_by_kind granting event user user' h was now = ground arith
expires_only_by_kind _ event user user' h was now = ground arith

-- An event makes a user expired only if it is an expiration, and not one for another day than the
-- expiry that is stored.
pub expires_only_by_expiration :
    (event : RevenueCatEvent) (user user' : SupabaseUser)
    → apply_event event user ≡ some user'
    → user.subscription_status ≢ some expired
    → user'.subscription_status ≡ some expired
    → (event_kind event ≡ expiration)
      × (other_day user.subscription_expires_at event.expiration_date_ms ≡ false)
unfolding apply_event
expires_only_by_expiration event = expires_only_by_kind (event_kind event) event

apply_kind-id :
    (k : Kind) (event : RevenueCatEvent) (user user' : SupabaseUser)
    → apply_kind k event user ≡ some user'
    → user'.id ≡ user.id
unfolding apply_kind
apply_kind-id granting event user user' h = ground arith
apply_kind-id _ event user user' h = ground arith

-- No event changes the id.
pub apply_event-id :
    (event : RevenueCatEvent) (user user' : SupabaseUser)
    → apply_event event user ≡ some user'
    → user'.id ≡ user.id
unfolding apply_event
apply_event-id event = apply_kind-id (event_kind event) event

-- The two branches that the checks for access depend on.
pub apply_event_granting :
    (event : RevenueCatEvent) (user : SupabaseUser)
    → event_kind event ≡ granting
    → is_stale user.subscription_expires_at event.expiration_date_ms ≡ false
    → apply_event event user ≡ some (grant (is_trial_period event) event user)
unfolding apply_event apply_kind
apply_event_granting event user k fresh = rw (k, apply_kind) (rw fresh refl)

pub apply_event_cancellation :
    (event : RevenueCatEvent) (user user' : SupabaseUser)
    → event_kind event ≡ cancellation
    → apply_event event user ≡ some user'
    → (user'.subscription_status ≡ some expired) ⊎ (user'.subscription_status ≡ some cancelled)
unfolding apply_event apply_kind
apply_event_cancellation event user user' k h = ground (arith, k)
