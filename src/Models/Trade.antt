-- ===== src/Models/Trade.antt =====
-- Rows of app/db/models/billing.py and verification.py.
use matchmaking_backend.Prelude.{ℕ, Bool, Option, String}
use matchmaking_backend.Enums.{
  SubscriptionStatus, PaymentStatus, PaymentType, JobVerificationStatus, EmploymentType,
}
use matchmaking_backend.Models.Accounts.{JsonDict}

pub record SubscriptionPlan : Type 0 where
  pub id : ℕ
  pub name : String
  pub description : Option String
  pub price : ℕ
  pub currency : String
  pub duration_days : ℕ
  pub is_active : Bool

pub record Subscription : Type 0 where
  pub id : ℕ
  pub user_id : ℕ
  pub plan_id : ℕ
  pub status : SubscriptionStatus
  pub starts_at : ℕ
  pub expires_at : Option ℕ
  pub auto_renew : Bool
  pub provider : String
  pub provider_subscription_id : Option String
  pub created_at : ℕ

pub record Payment : Type 0 where
  pub id : ℕ
  pub user_id : ℕ
  pub amount : ℕ
  pub currency : String
  pub payment_type : PaymentType
  pub status : PaymentStatus
  pub provider : String
  pub provider_payment_id : Option String
  pub meta : JsonDict
  pub paid_at : Option ℕ
  pub created_at : ℕ

pub record JobVerification : Type 0 where
  pub id : ℕ
  pub user_id : ℕ
  pub employment_type : EmploymentType
  pub employer_name : String
  pub job_title : Option String
  pub country : Option String
  pub verification_status : JobVerificationStatus
  pub amount_paid : Option ℕ
  pub currency : Option String
  pub payment_id : Option ℕ
  pub submitted_at : Option ℕ
  pub verified_at : Option ℕ
  pub expires_at : Option ℕ
  pub reviewer_id : Option ℕ
  pub rejection_reason : Option String
  pub reviewer_notes : Option String
  pub created_at : ℕ
