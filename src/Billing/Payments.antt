-- ===== src/Billing/Payments.antt =====
-- The webhook and the refund of `PaymentService` (app/services/payment_service.py).
pub mod Webhook
pub mod Lifecycle
pub mod Refund
use matchmaking_backend.Prelude.{
  ℕ, Bool, true, false, not, ◌&&◌, Option, none, some, String, List, [], ◌∷◌, first, contains,
  if◌then◌else◌, str_eq,
}
use matchmaking_backend.Errors.{Error, Code}
use matchmaking_backend.Enums.{PaymentStatus, PaymentType, is_settled, is_success}
use matchmaking_backend.Models.{or_null, Json, User, Payment}
use matchmaking_backend.World.{World, Exec, pure, or_raise, raise_if, gets, audit, ◌>>=◌, ◌>>◌}
use matchmaking_backend.Accounts.Users.{truthy, is_text}
use matchmaking_backend.Billing.Gateway.{Gateway}
use matchmaking_backend.Billing.Checkout.{get_payment, set_payment}
use matchmaking_backend.Billing.Subscriptions.{activate_from_payment}
use matchmaking_backend.Billing.Verifications.{mark_under_review_from_payment}

-- The entries of the webhook's payload, or of its "event", that are read.
pub record Event : Type 0 where
  pub provider_payment_id : Option String
  pub payment_id : Option String
  pub status : Option String

pub data WebhookAnswer : Type 0 where
  ignored duplicate : WebhookAnswer
  processed : ℕ → WebhookAnswer

-- `PaymentRepository.get_by_provider_id`.
abbrev pub get_by_provider_id : String → String → World → Option Payment
get_by_provider_id provider provider_payment_id w =
    first (λ p. str_eq p.provider provider && is_text p.provider_payment_id provider_payment_id)
      w.payments

abbrev pub or_empty : Option String → String
or_empty none = ""
or_empty (some s) = s

abbrev pub or_else {ℓ} : {A : Type ℓ} → Option A → Option A → Option A
or_else none b = b
or_else (some a) b = some a

-- `event.get("provider_payment_id") or event.get("payment_id") or ""`.
abbrev pub provider_id_of : Event → String
provider_id_of e = or_empty (or_else (truthy e.provider_payment_id) (truthy e.payment_id))

-- `str(event.get("status", "SUCCESS")).upper()`.
abbrev pub status_of : Gateway → Event → String
status_of g e = g.upper (elim e.status [ none ↦ "SUCCESS" | some s ↦ s ])

abbrev pub by_uuid : Option ℕ → World → Option Payment
by_uuid none w = none
by_uuid (some id) w = get_payment id w

-- One round of the loop over the candidates.
abbrev pub by_candidate : Gateway → Option String → World → Option Payment
by_candidate g c w = elim (truthy c) [ none ↦ none | some s ↦ by_uuid (g.parse_uuid s) w ]

-- The payment that an event is about.
unfoldable pub find_payment : Gateway → Event → World → Option Payment
find_payment g e w =
    or_else (get_by_provider_id g.name (provider_id_of e) w)
      (or_else (by_candidate g e.payment_id w) (by_candidate g e.provider_payment_id w))

abbrev pub succeeds : String → Bool
succeeds s = contains s ("SUCCESS" ∷ "COMPLETED" ∷ "PAID" ∷ [])

abbrev pub fails : String → Bool
fails s = contains s ("FAILED" ∷ "FAILURE" ∷ "CANCELLED" ∷ [])

-- The transition that the type of the payment calls for.
abbrev pub run_downstream : PaymentType → Payment → ℕ → Exec (Unit {0})
run_downstream PaymentType.subscription p now = activate_from_payment p now
run_downstream PaymentType.job_verification p now = mark_under_review_from_payment p
run_downstream PaymentType.other p now = pure tt

-- `_mark_success`.
unfoldable pub mark_success : Payment → ℕ → Exec (Unit {0})
mark_success p now = do
  set_payment p.id (λ q. record q { status = PaymentStatus.success; paid_at = some now })
  audit "payment.event" (some p.user_id) "payment" (Json.uuid p.id) [] now
  run_downstream p.payment_type p now

-- `_mark_failed`.
unfoldable pub mark_failed : Payment → Exec (Unit {0})
mark_failed p = set_payment p.id (λ q. record q { status = PaymentStatus.failed })

abbrev pub settle : Payment → String → ℕ → Exec (Unit {0})
settle p status now =
    if succeeds status then mark_success p now else if fails status then mark_failed p else pure tt

unfoldable pub process : Gateway → Event → Payment → ℕ → Exec WebhookAnswer
process g e p now =
    if is_settled p.status
    then pure WebhookAnswer.duplicate
    else (do settle p (status_of g e) now; pure (WebhookAnswer.processed p.id))

abbrev pub process_found : Gateway → Event → Option Payment → ℕ → Exec WebhookAnswer
process_found g e none now = pure WebhookAnswer.ignored
process_found g e (some p) now = process g e p now

unfoldable pub handle_webhook : Gateway → String → Event → ℕ → Exec WebhookAnswer
handle_webhook g provider_name e now = do
  raise_if (not (str_eq provider_name g.name)) (Error.app_error Code.unknown_provider)
  existing ← gets (find_payment g e)
  process_found g e existing now

unfoldable pub refund : Gateway → User → ℕ → Option String → ℕ → Exec (Unit {0})
refund g admin payment_id reason now = do
  found ← gets (get_payment payment_id)
  p ← or_raise found (Error.not_found Code.payment_not_found)
  raise_if (not (is_success p.status)) (Error.validation Code.payment_not_refundable)
  raise_if (not (g.refund (or_empty p.provider_payment_id))) (Error.validation Code.refund_failed)
  set_payment p.id (λ q. record q { status = PaymentStatus.refunded })
  audit "payment.refund" (some admin.id) "payment" (Json.uuid p.id)
      (("reason", or_null reason)
        ∷ ("amount", Json.text (g.amount_text p.amount))
        ∷ ("currency", Json.text p.currency)
        ∷ [])
      now
