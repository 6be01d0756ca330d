-- ===== src/Tests/Billing.antt =====
-- Payments, subscriptions and verifications at concrete tables.
use matchmaking_backend.Prelude.{◌≡◌, refl, true, false, none, some, [], ◌∷◌, arith, exists}
use matchmaking_backend.Errors.{ok, err, validation, payment_not_refundable}
use matchmaking_backend.Enums.{
  UserRole, PaymentStatus, PaymentType, SubscriptionStatus, JobVerificationStatus, EmploymentType,
}
use matchmaking_backend.Models.{
  Json, JsonDict, User, Payment, Subscription, SubscriptionPlan, JobVerification,
}
use matchmaking_backend.World.{World}
use matchmaking_backend.Billing.Checkout.{get_payment}
use matchmaking_backend.Billing.Subscriptions.{
  is_premium, get_active, latest, activate_from_payment, renew_or_create,
}
use matchmaking_backend.Billing.Subscriptions.Premium.{
  activate_from_payment-is_premium, expire_subscriptions-is_premium,
}
use matchmaking_backend.Billing.Verifications.{get_verification, mark_under_review_from_payment}
use matchmaking_backend.Billing.Verifications.Paid.{mark_under_review_paid}
use matchmaking_backend.Billing.Payments.{
  Event, WebhookAnswer, find_payment, mark_success, process, handle_webhook, refund,
}
use matchmaking_backend.Billing.Payments.Webhook.{handle_webhook_twice}
use matchmaking_backend.Billing.Payments.Lifecycle.{StepIn, handle_webhook-WebhookStep}
use matchmaking_backend.Billing.Payments.Refund.{status_in, refund_once}
use matchmaking_backend.Billing.Workers.{is_due, expire_subscriptions}
use matchmaking_backend.Tests.Fixtures.{empty_world, user_of, mock}

abbrev root : User
root = user_of 3 UserRole.super_admin

abbrev payment : PaymentStatus → PaymentType → JsonDict → Payment
payment status type meta = record {
  id = 1;
  user_id = 2;
  amount = 99900;
  currency = "INR";
  payment_type = type;
  status = status;
  provider = "mock";
  provider_payment_id = some "mock_1";
  meta = meta;
  paid_at = none;
  created_at = 0;
}

abbrev for_plan : Payment
for_plan = payment PaymentStatus.pending PaymentType.subscription (("plan_id", Json.uuid 6) ∷ [])

abbrev monthly : SubscriptionPlan
monthly = record {
  id = 6;
  name = "Monthly";
  description = none;
  price = 99900;
  currency = "INR";
  duration_days = 30;
  is_active = true;
}

abbrev running : Subscription
running = record {
  id = 8;
  user_id = 2;
  plan_id = 6;
  status = SubscriptionStatus.active;
  starts_at = 0;
  expires_at = some 500;
  auto_renew = false;
  provider = "mock";
  provider_subscription_id = none;
  created_at = 0;
}

-- A payment for a month is pending while a subscription runs.
abbrev paying_world : World
paying_world = record empty_world {
  plans = monthly ∷ [];
  subscriptions = running ∷ [];
  payments = for_plan ∷ [];
}

abbrev success_event : Event
success_event = record { provider_payment_id = some "mock_1"; payment_id = none; status = none }

handle_webhook_twice_example :
    handle_webhook mock "mock" success_event 20
      (handle_webhook mock "mock" success_event 10 paying_world).1
    ≡ (ok WebhookAnswer.duplicate, (handle_webhook mock "mock" success_event 10 paying_world).1)
unfolding handle_webhook find_payment process mark_success activate_from_payment renew_or_create
    get_active latest
handle_webhook_twice_example =
    handle_webhook_twice mock "mock" success_event 10 20 paying_world {id = 1} refl refl

abbrev paid_world : World
paid_world = record empty_world {
  payments = payment PaymentStatus.success PaymentType.other [] ∷ [];
}

refund_once_example :
    (status_in (get_payment 1 paid_world) ≡ some PaymentStatus.success)
    × (status_in (get_payment 1 (refund mock root 1 none 10 paid_world).1)
        ≡ some PaymentStatus.refunded)
    × (refund mock root 1 none 20 (refund mock root 1 none 10 paid_world).1
        ≡ (err (validation payment_not_refundable), (refund mock root 1 none 10 paid_world).1))
unfolding refund
refund_once_example = refund_once mock root root 1 none none 10 20 paid_world refl

-- 30 days after the end that the running subscription had.
activate_from_payment-is_premium_example :
    ((activate_from_payment for_plan 10 paying_world).0 ≡ ok tt)
    × (is_premium 2 2592499 (activate_from_payment for_plan 10 paying_world).1 ≡ true)
unfolding get_active latest
activate_from_payment-is_premium_example =
    activate_from_payment-is_premium for_plan monthly 6 2592499 10 paying_world refl refl refl
      (omega arith)

expire_subscriptions-is_premium_example :
    (is_premium 2 400 (expire_subscriptions 300 paying_world) ≡ is_premium 2 400 paying_world)
    × (exists (is_due 300) (expire_subscriptions 300 paying_world).subscriptions ≡ false)
expire_subscriptions-is_premium_example =
    expire_subscriptions-is_premium 2 400 300 paying_world refl (omega arith)

abbrev unpaid : JobVerification
unpaid = record {
  id = 7;
  user_id = 2;
  employment_type = EmploymentType.local;
  employer_name = "Acme";
  job_title = none;
  country = none;
  verification_status = JobVerificationStatus.pending_payment;
  amount_paid = none;
  currency = none;
  payment_id = none;
  submitted_at = none;
  verified_at = none;
  expires_at = none;
  reviewer_id = none;
  rejection_reason = none;
  reviewer_notes = none;
  created_at = 0;
}

abbrev for_verification : Payment
for_verification =
    payment PaymentStatus.pending PaymentType.job_verification
      (("verification_id", Json.uuid 7) ∷ [])

abbrev unpaid_world : World
unpaid_world = record empty_world { verifications = unpaid ∷ [] }

mark_under_review_paid_example :
    ((mark_under_review_from_payment for_verification unpaid_world).0 ≡ ok tt)
    × (get_verification 7 (mark_under_review_from_payment for_verification unpaid_world).1
        ≡ some (record unpaid { verification_status = JobVerificationStatus.under_review }))
mark_under_review_paid_example =
    mark_under_review_paid for_verification 7 unpaid_world {v = unpaid} refl refl

handle_webhook-WebhookStep_example :
    StepIn
      (get_payment 1 paying_world)
      (get_payment 1 (handle_webhook mock "mock" success_event 10 paying_world).1)
handle_webhook-WebhookStep_example =
    handle_webhook-WebhookStep mock success_event 10 1 paying_world (refl, tt) "mock"
