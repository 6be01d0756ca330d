-- ===== src/Billing/Workers.antt =====
-- The periodic jobs of app/workers/tasks.py that change tables. Each commits at its end.
use matchmaking_backend.Prelude.{
  ℕ, ◌-◌, Bool, false, ◌&&◌, Option, none, some, is_none, ltb, update,
}
use matchmaking_backend.Enums.{
  SubscriptionStatus, JobVerificationStatus, is_active_subscription, is_verified,
}
use matchmaking_backend.Models.{ProfileShare, Subscription, JobVerification}
use matchmaking_backend.World.{World, days}

-- `column.is_not(None), column < now`.
abbrev pub is_before : Option ℕ → ℕ → Bool
is_before none now = false
is_before (some t) now = ltb t now

abbrev pub is_due : ℕ → Subscription → Bool
is_due now s = is_active_subscription s.status && is_before s.expires_at now

unfoldable pub expire_subscriptions : ℕ → World → World
expire_subscriptions now w = record w {
  subscriptions =
      update (is_due now) (λ s. record s { status = SubscriptionStatus.expired }) w.subscriptions;
}

abbrev pub is_due_share : ℕ → ProfileShare → Bool
is_due_share now s = is_none s.revoked_at && is_before s.expires_at now

unfoldable pub expire_profile_shares : ℕ → World → World
expire_profile_shares now w = record w {
  shares = update (is_due_share now) (λ s. record s { revoked_at = some now }) w.shares;
}

abbrev pub is_due_verification : ℕ → JobVerification → Bool
is_due_verification now v = is_verified v.verification_status && is_before v.expires_at now

unfoldable pub expire_job_verifications : ℕ → World → World
expire_job_verifications now w = record w {
  verifications =
      update (is_due_verification now)
        (λ v. record v { verification_status = JobVerificationStatus.expired }) w.verifications;
}

unfoldable pub cleanup_deleted_accounts : ℕ → ℕ → World → World
cleanup_deleted_accounts older_than_days now w = record w {
  users =
      update (λ u. is_before u.deleted_at (now - days older_than_days))
        (λ u. record u { phone_number = none; email = none; password_hash = none }) w.users;
}
