-- ===== src/Errors.antt =====
-- The application errors (app/api/errors.py) with the codes that the modelled services raise, and
-- the database errors that the constraints declared in app/db/models raise at a flush.
use matchmaking_backend.Prelude.{ℕ, Bool, true, false}

-- The `code=` arguments; `default_code` is the class attribute, where no code is given.
pub data Code : Type 0 where
  default_code : Code
  self_swipe user_not_found user_banned user_unavailable blocked : Code
  duplicate_swipe already_matched match_not_found forbidden_code : Code
  self_block already_blocked block_not_found : Code
  self_share already_shared share_not_found : Code
  conversation_not_found not_matched : Code
  account_exists invalid_credentials account_deleted account_banned account_suspended : Code
  invalid_mfa_token not_authenticated mfa_not_enabled invalid_totp : Code
  invalid_refresh_token token_revoked invalid_token : Code
  invalid_reset_token invalid_password invalid_otp : Code
  totp_not_setup invalid_verify_kind invalid_permission : Code
  unknown_provider payment_not_found payment_not_refundable refund_failed : Code
  payment_meta_missing plan_not_found verification_not_found verification_not_paid : Code
  self_report report_not_found : Code
  config_key_not_found config_key_exists invalid_config_value invalid_config_key invalid_color :
      Code
  rate_limit_exceeded invalid_audience audience_limit_exceeded empty_audience : Code
  photo_not_found invalid_action profile_not_found invalid_report_status : Code
  password_required invalid_role : Code

-- The constraints of app/db/models, `UUID(...)` of a text that is none, what the provider raises, a
-- TokenError that is not caught, an IndexError, a rate that cannot be read, and an answer that its schema
-- refuses.
pub data Fault : Type 0 where
  uq_user_email uq_user_phone uq_refresh_jti uq_swipe uq_match ck_match_order : Fault
  uq_block uq_share uq_provider_payment bad_uuid token_error provider_error uq_preferred : Fault
  ck_age_range ck_preferred_height index_error bad_rate pk_report invalid_response : Fault

pub data Error : Type 0 where
  not_found unauthorized forbidden conflict validation app_error too_many : Code → Error
  fault : Fault → Error

-- The HTTP status of each class; a fault reaches the handler of any other exception.
abbrev pub status_code : Error → ℕ
status_code (not_found c) = 404
status_code (unauthorized c) = 401
status_code (forbidden c) = 403
status_code (conflict c) = 409
status_code (validation c) = 422
status_code (app_error c) = 400
status_code (too_many c) = 429
status_code (fault f) = 500

pub data Result {ℓ} (A : Type ℓ) : Type ℓ where
  ok : A → Result A
  err : Error → Result A

abbrev pub is_ok {ℓ} : {A : Type ℓ} → Result A → Bool
is_ok (ok a) = true
is_ok (err e) = false
