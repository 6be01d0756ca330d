-- ===== src/Billing/Verifications.antt =====
-- `VerificationService` of app/services/verification_service.py. The price, which an administrator
-- configures, is an argument of `submit`.
pub mod Paid
use matchmaking_backend.Prelude.{
  ℕ, ◌+◌, Bool, true, false, not, Option, none, some, String, List, [], ◌∷◌, ◌==◌, first, update,
  add, if◌then◌else◌,
}
use matchmaking_backend.Errors.{Error, Code}
use matchmaking_backend.Enums.{
  JobVerificationStatus, EmploymentType, PaymentType, is_pending_payment, is_reviewer_role,
}
use matchmaking_backend.Models.{Json, User, Payment, JobVerification}
use matchmaking_backend.World.{
  World, Exec, pure, or_raise, raise_if, gets, modify, gen_uuid, audit, days, ◌>>=◌, ◌>>◌,
}
use matchmaking_backend.Billing.Gateway.{Gateway}
use matchmaking_backend.Billing.Checkout.{Checkout, lookup, create_checkout}
use matchmaking_backend.Billing.Subscriptions.{uuid_in}

abbrev pub get_verification : ℕ → World → Option JobVerification
get_verification id w = first (λ v. v.id == id) w.verifications

abbrev pub set_verification : ℕ → (JobVerification → JobVerification) → Exec (Unit {0})
set_verification id f =
    modify (λ w. record w { verifications = update (λ v. v.id == id) f w.verifications })

-- The body of the request.
pub record Submission : Type 0 where
  pub employment_type : EmploymentType
  pub employer_name : String
  pub job_title : Option String
  pub country : Option String

abbrev pub new_verification : ℕ → ℕ → Submission → ℕ → JobVerification
new_verification id user_id data_ now = record {
  id = id;
  user_id = user_id;
  employment_type = data_.employment_type;
  employer_name = data_.employer_name;
  job_title = data_.job_title;
  country = data_.country;
  verification_status = JobVerificationStatus.pending_payment;
  amount_paid = none;
  currency = none;
  payment_id = none;
  submitted_at = none;
  verified_at = none;
  expires_at = none;
  reviewer_id = none;
  rejection_reason = none;
  reviewer_notes = none;
  created_at = now;
}

abbrev describe : EmploymentType → String
describe EmploymentType.local = "Job verification (LOCAL)"
describe EmploymentType.nri = "Job verification (NRI)"

-- `settings.JOB_VERIFICATION_CURRENCY` is the argument `currency`.
unfoldable pub submit : Gateway → String → User → Submission → ℕ → ℕ → Exec Checkout
submit g currency user data_ price now = do
  id ← gen_uuid
  let v = new_verification id user.id data_ now
  modify (λ w. record w { verifications = add v w.verifications })
  checkout ←
      create_checkout g user PaymentType.job_verification price currency
        (("verification_id", Json.uuid id)
          ∷ ("description", Json.text (describe data_.employment_type))
          ∷ [])
        now
  set_verification id (λ v. record v {
    payment_id = some checkout.payment_id;
    amount_paid = some price;
    currency = some currency;
    submitted_at = some now;
  })
  audit "verification.submit" (some user.id) "job_verification" (Json.uuid id) [] now
  pure checkout

abbrev pub paid : JobVerification → JobVerification
paid v =
    if is_pending_payment v.verification_status
    then record v { verification_status = JobVerificationStatus.under_review }
    else v

unfoldable pub mark_under_review_from_payment : Payment → Exec (Unit {0})
mark_under_review_from_payment p = do
  id ← uuid_in (lookup "verification_id" p.meta)
  found ← gets (get_verification id)
  v ← or_raise found (Error.not_found Code.verification_not_found)
  set_verification v.id paid

-- The assignments of `review`.
abbrev pub reviewed :
    User → Bool → Option String → Option String → ℕ → ℕ → JobVerification → JobVerification
reviewed reviewer true rejection_reason reviewer_notes expires_in_days now v = record v {
  verification_status = JobVerificationStatus.verified;
  verified_at = some now;
  expires_at = some (now + days expires_in_days);
  rejection_reason = none;
  reviewer_notes = reviewer_notes;
  reviewer_id = some reviewer.id;
}
reviewed reviewer false rejection_reason reviewer_notes expires_in_days now v = record v {
  verification_status = JobVerificationStatus.rejected;
  rejection_reason = rejection_reason;
  reviewer_notes = reviewer_notes;
  reviewer_id = some reviewer.id;
}

unfoldable pub review : User → ℕ → Bool → Option String → Option String → ℕ → ℕ → Exec (Unit {0})
review reviewer verification_id approve rejection_reason reviewer_notes expires_in_days now = do
  raise_if (not (is_reviewer_role reviewer.role)) (Error.forbidden Code.forbidden_code)
  found ← gets (get_verification verification_id)
  v ← or_raise found (Error.not_found Code.verification_not_found)
  set_verification v.id
      (reviewed reviewer approve rejection_reason reviewer_notes expires_in_days now)
  audit "verification.review" (some reviewer.id) "job_verification" (Json.uuid v.id)
      (("approved", Json.boolean approve) ∷ []) now

unfoldable pub request_more_info : User → ℕ → String → ℕ → Exec (Unit {0})
request_more_info reviewer verification_id reason now = do
  found ← gets (get_verification verification_id)
  v ← or_raise found (Error.not_found Code.verification_not_found)
  raise_if (is_pending_payment v.verification_status) (Error.forbidden Code.verification_not_paid)
  set_verification v.id (λ v. record v { reviewer_notes = some reason })
  audit "job_verification.info_requested" (some reviewer.id) "job_verification" (Json.uuid v.id)
      (("reason", Json.text reason) ∷ []) now
