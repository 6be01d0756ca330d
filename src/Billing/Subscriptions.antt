-- ===== src/Billing/Subscriptions.antt =====
-- `SubscriptionService` of app/services/subscription_service.py over the queries of
-- app/repositories/billing_repo.py.
pub mod Premium
use matchmaking_backend.Prelude.{
  ℕ, ◌+◌, Bool, true, false, ◌&&◌, Option, none, some, String, List, [], ◌∷◌, ◌==◌, ltb, first,
  select, update, add, if◌then◌else◌, not, str_eq, ◌≡◌, arith,
}
use matchmaking_backend.Errors.{Error, Code, Fault, ok}
use matchmaking_backend.Enums.{SubscriptionStatus, PaymentType, is_active_subscription}
use matchmaking_backend.Models.{Json, JsonDict, User, SubscriptionPlan, Subscription, Payment}
use matchmaking_backend.World.{
  World, Exec, pure, or_raise, raise_if, gets, modify, gen_uuid, audit, days, ◌>>=◌, ◌>>◌,
}
use matchmaking_backend.Billing.Gateway.{Gateway}
use matchmaking_backend.Billing.Checkout.{Checkout, lookup, create_checkout}

abbrev pub find_plan : ℕ → World → Option SubscriptionPlan
find_plan id w = first (λ p. p.id == id) w.plans

abbrev usable_plan : Option SubscriptionPlan → Option SubscriptionPlan
usable_plan none = none
usable_plan (some p) = if p.is_active then some p else none

unfoldable pub get_plan : ℕ → Exec SubscriptionPlan
get_plan plan_id = do
  found ← gets (λ w. usable_plan (find_plan plan_id w))
  or_raise found (Error.not_found Code.plan_not_found)

abbrev pub is_active_of : ℕ → Subscription → Bool
is_active_of user_id s = s.user_id == user_id && is_active_subscription s.status

-- `expires_at DESC` of PostgreSQL: a NULL comes first.
abbrev at_or_after : Option ℕ → Option ℕ → Bool
at_or_after none e = true
at_or_after (some d) none = false
at_or_after (some d) (some e) = if ltb d e then false else true

abbrev pub sorts_before : Subscription → Subscription → Bool
sorts_before s t = at_or_after s.expires_at t.expires_at

abbrev pub prefer : Subscription → Option Subscription → Subscription
prefer s none = s
prefer s (some t) = if sorts_before s t then s else t

-- `.order_by(Subscription.expires_at.desc()).limit(1)`.
unfoldable pub latest : List Subscription → Option Subscription
latest [] = none
latest (s ∷ ss) = some (prefer s (latest ss))

-- `SubscriptionRepository.get_active`.
unfoldable pub get_active : ℕ → World → Option Subscription
get_active user_id w = latest (select (is_active_of user_id) w.subscriptions)

abbrev pub runs_after : ℕ → Option Subscription → Bool
runs_after now none = false
runs_after now (some s) = elim s.expires_at [ none ↦ false | some e ↦ ltb now e ]

-- `SubscriptionRepository.is_premium`.
abbrev pub is_premium : ℕ → ℕ → World → Bool
is_premium user_id now w = runs_after now (get_active user_id w)

unfoldable pub checkout : Gateway → User → ℕ → ℕ → Exec Checkout
checkout g user plan_id now = do
  plan ← get_plan plan_id
  create_checkout g user PaymentType.subscription plan.price plan.currency
      (("plan_id", Json.uuid plan.id)
        ∷ ("description", Json.text plan.name)
        ∷ ("duration_days", Json.number plan.duration_days)
        ∷ [])
      now

-- The UUID that a value of the metadata is the text of.
abbrev pub uuid_of : Option Json → Option ℕ
uuid_of (some (Json.uuid n)) = some n
uuid_of _ = none

-- `not plan_id`.
abbrev is_missing : Option Json → Bool
is_missing none = true
is_missing (some Json.null) = true
is_missing (some (Json.boolean b)) = not b
is_missing (some (Json.number n)) = n == 0
is_missing (some (Json.uuid n)) = false
is_missing (some (Json.text s)) = str_eq s ""
is_missing (some (Json.texts [])) = true
is_missing (some (Json.texts (s ∷ rest))) = false

-- The UUID under a key of the metadata; what is no text of one cannot be looked up.
abbrev pub uuid_in : Option Json → Exec ℕ
uuid_in value = do
  raise_if (is_missing value) (Error.not_found Code.payment_meta_missing)
  or_raise (uuid_of value) (Error.fault Fault.bad_uuid)

pub uuid_in_found :
    (value : Option Json) (k : ℕ) (w : World) → uuid_of value ≡ some k → uuid_in value w ≡ (ok k, w)
uuid_in_found (some (Json.uuid n)) k w e = ground arith
uuid_in_found _ k w e = ground arith

-- `existing.expires_at if existing and existing.expires_at and existing.expires_at > now else now`.
abbrev pub starts_from : Option Subscription → ℕ → ℕ
starts_from none now = now
starts_from (some s) now = elim s.expires_at [ none ↦ now | some e ↦ if ltb now e then e else now ]

abbrev pub renewed : Payment → ℕ → ℕ → Subscription → Subscription
renewed p starts expires s = record s {
  starts_at = starts;
  expires_at = some expires;
  status = SubscriptionStatus.active;
  provider = p.provider;
  provider_subscription_id = p.provider_payment_id;
}

abbrev pub new_subscription : ℕ → ℕ → Payment → ℕ → ℕ → ℕ → Subscription
new_subscription id plan_id p starts expires now = record {
  id = id;
  user_id = p.user_id;
  plan_id = plan_id;
  status = SubscriptionStatus.active;
  starts_at = starts;
  expires_at = some expires;
  auto_renew = false;
  provider = p.provider;
  provider_subscription_id = p.provider_payment_id;
  created_at = now;
}

-- `if existing: ... else: ...`; the id of the subscription.
unfoldable pub renew_or_create : Option Subscription → ℕ → Payment → ℕ → ℕ → ℕ → Exec ℕ
renew_or_create none plan_id p starts expires now = do
  id ← gen_uuid
  let s = new_subscription id plan_id p starts expires now
  modify (λ w. record w { subscriptions = add s w.subscriptions })
  pure id
renew_or_create (some s) plan_id p starts expires now = do
  modify (λ w. record w {
    subscriptions = update (λ t. t.id == s.id) (renewed p starts expires) w.subscriptions;
  })
  pure s.id

unfoldable pub activate_from_payment : Payment → ℕ → Exec (Unit {0})
activate_from_payment p now = do
  plan_id ← uuid_in (lookup "plan_id" p.meta)
  found ← gets (find_plan plan_id)
  plan ← or_raise found (Error.not_found Code.plan_not_found)
  existing ← gets (get_active p.user_id)
  let starts = starts_from existing now
  id ← renew_or_create existing plan.id p starts (starts + days plan.duration_days) now
  audit "subscription.change" (some p.user_id) "subscription" (Json.uuid id) [] now
