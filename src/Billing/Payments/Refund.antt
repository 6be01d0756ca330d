-- ===== src/Billing/Payments/Refund.antt =====
-- A repeated `refund` (app/services/payment_service.py).
use matchmaking_backend.Prelude.{
  ℕ, ◌≡◌, refl, Option, none, some, String, arith, first-update, first_sound, ◌==◌,
}
use matchmaking_backend.Errors.{ok, err, validation, payment_not_refundable}
use matchmaking_backend.Enums.{PaymentStatus}
use matchmaking_backend.Models.{User, Payment}
use matchmaking_backend.World.{World}
use matchmaking_backend.Billing.Gateway.{Gateway}
use matchmaking_backend.Billing.Checkout.{get_payment}
use matchmaking_backend.Billing.Payments.{refund}

abbrev pub status_in : Option Payment → Option PaymentStatus
status_in none = none
status_in (some p) = some p.status

refund-status :
    (g : Gateway) (admin : User) (id : ℕ) (reason : Option String) (now : ℕ) (w : World)
    (o : Option Payment)
    → get_payment id w ≡ o
    → (refund g admin id reason now w).0 ≡ ok tt
    → (status_in o ≡ some PaymentStatus.success)
      × (status_in (get_payment id (refund g admin id reason now w).1)
          ≡ some PaymentStatus.refunded)
unfolding refund
refund-status g admin id reason now w none f h = ground arith
refund-status g admin id reason now w (some p) f h = ground (
  arith,
  first_sound (λ (q : Payment). q.id == id) w.payments p f,
  first-update (λ (q : Payment). q.id == id) (λ q. q.id == p.id)
      (λ q. record q { status = PaymentStatus.refunded }) w.payments (λ q. refl),
)

refund_refused :
    (g : Gateway) (admin : User) (id : ℕ) (reason : Option String) (now : ℕ) (w : World)
    (o : Option Payment)
    → get_payment id w ≡ o
    → status_in o ≡ some PaymentStatus.refunded
    → refund g admin id reason now w ≡ (err (validation payment_not_refundable), w)
unfolding refund
refund_refused g admin id reason now w none f h = ground arith
refund_refused g admin id reason now w (some p) f h = ground arith

-- A refund that returns found the payment SUCCESS and leaves it REFUNDED, and the next refund of
-- the payment, by whomever and whenever, is refused and changes nothing.
pub refund_once :
    (g : Gateway) (admin other : User) (id : ℕ) (reason again : Option String) (now later : ℕ)
    (w : World)
    → (refund g admin id reason now w).0 ≡ ok tt
    → (status_in (get_payment id w) ≡ some PaymentStatus.success)
      × (status_in (get_payment id (refund g admin id reason now w).1)
          ≡ some PaymentStatus.refunded)
      × (refund g other id again later (refund g admin id reason now w).1
          ≡ (err (validation payment_not_refundable), (refund g admin id reason now w).1))
refund_once g admin other id reason again now later w h =
    let (before, done) = refund-status g admin id reason now w (get_payment id w) refl h in
    let w' = (refund g admin id reason now w).1 in
    (before, done, refund_refused g other id again later w' (get_payment id w') refl done)
