-- ===== src/Billing/Verifications/Paid.antt =====
-- `mark_under_review_from_payment` of app/services/verification_service.py.
use matchmaking_backend.Prelude.{ℕ, ◌≡◌, some, arith, first-update, first_sound, ◌==◌}
use matchmaking_backend.Errors.{ok}
use matchmaking_backend.Enums.{JobVerificationStatus}
use matchmaking_backend.Models.{Payment, JobVerification}
use matchmaking_backend.World.{World}
use matchmaking_backend.Billing.Checkout.{lookup}
use matchmaking_backend.Billing.Subscriptions.{uuid_of}
use matchmaking_backend.Billing.Verifications.{
  get_verification, paid, mark_under_review_from_payment,
}

-- The status that a payment leads to.
abbrev pub paid_status : JobVerificationStatus → JobVerificationStatus
paid_status JobVerificationStatus.pending_payment = JobVerificationStatus.under_review
paid_status s = s

paid_status_lem :
    (v : JobVerification) → (paid v).verification_status ≡ paid_status v.verification_status
paid_status_lem v = ground arith

-- A payment whose metadata name a verification that exists moves it from PENDING_PAYMENT to
-- UNDER_REVIEW and leaves it as it is in every other status.
pub mark_under_review_paid :
    (p : Payment) (id : ℕ) (w : World) {v : JobVerification}
    → uuid_of (lookup "verification_id" p.meta) ≡ some id
    → get_verification id w ≡ some v
    → ((mark_under_review_from_payment p w).0 ≡ ok tt)
      × (get_verification id (mark_under_review_from_payment p w).1
          ≡ some (record v { verification_status = paid_status v.verification_status }))
unfolding mark_under_review_from_payment
mark_under_review_paid p id w {v} m f = ground (
  arith,
  first_sound (λ (x : JobVerification). x.id == id) w.verifications v f,
  first-update (λ (x : JobVerification). x.id == id) (λ x. x.id == v.id) paid w.verifications
      λ x. paid-id x id,
)
  where
    paid-id : (x : JobVerification) (id : ℕ) → ((paid x).id == id) ≡ (x.id == id)
    paid-id x id = ground arith
