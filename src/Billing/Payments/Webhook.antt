-- ===== src/Billing/Payments/Webhook.antt =====
-- A repeated webhook of `handle_webhook` (app/services/payment_service.py).
use matchmaking_backend.Prelude.{
  ℕ, ◌≡◌, refl, Bool, true, Option, none, some, String, arith, update, after, first-update, ◌==◌,
  ==_refl, str_eq, ◌&&◌,
}
use matchmaking_backend.Errors.{ok}
use matchmaking_backend.Enums.{PaymentStatus, PaymentType}
use matchmaking_backend.Models.{Payment}
use matchmaking_backend.World.{World}
use matchmaking_backend.Accounts.Users.{truthy, is_text}
use matchmaking_backend.Billing.Gateway.{Gateway}
use matchmaking_backend.Billing.Subscriptions.{activate_from_payment, renew_or_create}
use matchmaking_backend.Billing.Verifications.{mark_under_review_from_payment}
use matchmaking_backend.Billing.Payments.{
  Event, WebhookAnswer, by_uuid, by_candidate, provider_id_of, find_payment, succeeds, status_of,
  run_downstream, mark_success, process, process_found, handle_webhook,
}

abbrev marked : ℕ → Payment → Payment
marked now p = record p { status = PaymentStatus.success; paid_at = some now }

abbrev has_id : ℕ → Payment → Bool
has_id k p = p.id == k

by_uuid-after :
    (o : Option ℕ) (k now : ℕ) (w w' : World)
    → w'.payments ≡ update (has_id k) (marked now) w.payments
    → by_uuid o w' ≡ after (has_id k) (marked now) (by_uuid o w)
by_uuid-after none k now w w' e = refl
by_uuid-after (some id) k now w w' e =
    rw e (first-update (has_id id) (has_id k) (marked now) w.payments λ p. refl)

by_candidate-after :
    (g : Gateway) (c : Option String) (k now : ℕ) (w w' : World)
    → w'.payments ≡ update (has_id k) (marked now) w.payments
    → by_candidate g c w' ≡ after (has_id k) (marked now) (by_candidate g c w)
by_candidate-after g c k now w w' e = go (truthy c)
  where
    go :
        (o : Option String)
        → elim o [ none ↦ none | some s ↦ by_uuid (g.parse_uuid s) w' ]
          ≡ after
              (has_id k)
              (marked now)
              (elim o [ none ↦ none | some s ↦ by_uuid (g.parse_uuid s) w ])
    go none = refl
    go (some s) = by_uuid-after (g.parse_uuid s) k now w w' e

-- An event is about the same payment after one was marked as paid.
find_payment-after :
    (g : Gateway) (e : Event) (k now : ℕ) (w w' : World)
    → w'.payments ≡ update (has_id k) (marked now) w.payments
    → find_payment g e w' ≡ after (has_id k) (marked now) (find_payment g e w)
unfolding find_payment
find_payment-after g e k now w w' same =
    let p = λ (p : Payment).
      str_eq p.provider g.name && is_text p.provider_payment_id (provider_id_of e) in
    let one = first-update p (has_id k) (marked now) w.payments λ p. refl in
    let two = by_candidate-after g e.payment_id k now w w' same in
    let three = by_candidate-after g e.provider_payment_id k now w w' same in
    ground (arith, one, two, three, same)

activate_keeps :
    (p : Payment) (now : ℕ) (w : World) → (activate_from_payment p now w).1.payments ≡ w.payments
unfolding activate_from_payment renew_or_create
activate_keeps p now w = ground arith

downstream_keeps :
    (t : PaymentType) (p : Payment) (now : ℕ) (w : World)
    → (run_downstream t p now w).1.payments ≡ w.payments
unfolding mark_under_review_from_payment
downstream_keeps PaymentType.subscription p now w = activate_keeps p now w
downstream_keeps PaymentType.job_verification p now w = ground arith
downstream_keeps PaymentType.other p now w = refl

pub mark_success-payments :
    (p : Payment) (now : ℕ) (w : World)
    → (mark_success p now w).1.payments ≡ update (has_id p.id) (marked now) w.payments
unfolding mark_success
mark_success-payments p now w = downstream_keeps p.payment_type p now _

-- A processed event of success has marked the payment.
processed-payments :
    (g : Gateway) (e : Event) (p : Payment) (now : ℕ) (w : World) {id : ℕ}
    → succeeds (status_of g e) ≡ true
    → (process g e p now w).0 ≡ ok (WebhookAnswer.processed id)
    → (process g e p now w).1.payments ≡ update (has_id p.id) (marked now) w.payments
unfolding process
processed-payments g e p now w s h = ground (arith, mark_success-payments p now w)

settled_duplicate :
    (g : Gateway) (e : Event) (p : Payment) (k t later : ℕ) (w : World)
    → k ≡ p.id
    → process_found g e (after (has_id k) (marked t) (some p)) later w
      ≡ (ok WebhookAnswer.duplicate, w)
unfolding process
settled_duplicate g e p k t later w h = ground (arith, ==_refl k)

handled_found :
    (g : Gateway) (e : Event) (now later : ℕ) (w : World) (o : Option Payment) {id : ℕ}
    → find_payment g e w ≡ o
    → succeeds (status_of g e) ≡ true
    → (process_found g e o now w).0 ≡ ok (WebhookAnswer.processed id)
    → process_found g e
        (find_payment g e (process_found g e o now w).1)
        later
        (process_found g e o now w).1
      ≡ (ok WebhookAnswer.duplicate, (process_found g e o now w).1)
handled_found g e now later w none f s h = ground arith
handled_found g e now later w (some p) {id} f s h =
    let w' = (process g e p now w).1 in
    let same = processed-payments g e p now w {id = id} s h in
    rw (find_payment-after g e p.id now w w' same)
      (rw f (settled_duplicate g e p p.id now later w' refl))

-- A webhook that reports success and is processed takes effect once: the same event, delivered next
-- and whenever, is answered as a duplicate and changes nothing.
pub handle_webhook_twice :
    (g : Gateway) (name : String) (e : Event) (now later : ℕ) (w : World) {id : ℕ}
    → succeeds (status_of g e) ≡ true
    → (handle_webhook g name e now w).0 ≡ ok (WebhookAnswer.processed id)
    → handle_webhook g name e later (handle_webhook g name e now w).1
      ≡ (ok WebhookAnswer.duplicate, (handle_webhook g name e now w).1)
unfolding handle_webhook
handle_webhook_twice g name e now later w {id} s h =
    ground (arith, handled_found g e now later w (find_payment g e w) {id = id} refl s)
