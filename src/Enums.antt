-- ===== src/Enums.antt =====
-- The enumerations of app/db/enums.py that the modelled services use, with the tests for
-- membership that the services write as `==` and `in {...}`.
use matchmaking_backend.Prelude.{ℕ, String, Bool, true, false, List, [], ◌∷◌}

pub data AccountStatus : Type 0 where
  pending active suspended banned deleted : AccountStatus

pub data UserRole : Type 0 where
  user moderator verifier support finance analyst admin super_admin : UserRole

pub data SwipeAction : Type 0 where
  like pass super_like : SwipeAction

pub data MatchStatus : Type 0 where
  active unmatched blocked expired : MatchStatus

pub data MessageType : Type 0 where
  text image system : MessageType

pub data ReportStatus : Type 0 where
  pending under_review resolved dismissed escalated : ReportStatus

pub data SubscriptionStatus : Type 0 where
  trial active past_due canceled expired : SubscriptionStatus

pub data PaymentStatus : Type 0 where
  pending success failed refunded cancelled : PaymentStatus

pub data PaymentType : Type 0 where
  subscription job_verification other : PaymentType

pub data JobVerificationStatus : Type 0 where
  pending_payment under_review verified rejected expired : JobVerificationStatus

pub data EmploymentType : Type 0 where
  local nri : EmploymentType

pub data SharePermission : Type 0 where
  view contact manage : SharePermission

pub data NotificationType : Type 0 where
  new_match new_message new_like profile_view verification_complete : NotificationType
  subscription_expiring system : NotificationType

pub data PreferenceLevel : Type 0 where
  required preferred no_preference : PreferenceLevel

pub data PhotoVerificationStatus : Type 0 where
  unverified pending verified rejected : PhotoVerificationStatus

pub data ProfileReviewStatus : Type 0 where
  pending approved rejected request_changes suspended : ProfileReviewStatus

pub data NotificationCampaignStatus : Type 0 where
  queued sending done failed cancelled : NotificationCampaignStatus

pub data ConfigValueType : Type 0 where
  string integer float boolean json : ConfigValueType

pub data ConfigCategory : Type 0 where
  branding app features limits pricing versions legal support : ConfigCategory

abbrev pub is_active_status : AccountStatus → Bool
is_active_status AccountStatus.active = true
is_active_status _ = false

abbrev pub is_banned_status : AccountStatus → Bool
is_banned_status AccountStatus.banned = true
is_banned_status _ = false

abbrev pub is_deleted_status : AccountStatus → Bool
is_deleted_status AccountStatus.deleted = true
is_deleted_status _ = false

abbrev pub is_suspended_status : AccountStatus → Bool
is_suspended_status AccountStatus.suspended = true
is_suspended_status _ = false

-- `action in {"LIKE", "SUPER_LIKE"}`.
abbrev pub is_like : SwipeAction → Bool
is_like SwipeAction.like = true
is_like SwipeAction.super_like = true
is_like _ = false

abbrev pub is_active_match : MatchStatus → Bool
is_active_match MatchStatus.active = true
is_active_match _ = false

abbrev pub is_active_subscription : SubscriptionStatus → Bool
is_active_subscription SubscriptionStatus.active = true
is_active_subscription _ = false

-- The payments that a webhook no longer touches: `{SUCCESS, REFUNDED}`.
abbrev pub is_settled : PaymentStatus → Bool
is_settled PaymentStatus.success = true
is_settled PaymentStatus.refunded = true
is_settled _ = false

abbrev pub is_success : PaymentStatus → Bool
is_success PaymentStatus.success = true
is_success _ = false

abbrev pub is_pending_payment : JobVerificationStatus → Bool
is_pending_payment JobVerificationStatus.pending_payment = true
is_pending_payment _ = false

abbrev pub is_verified : JobVerificationStatus → Bool
is_verified JobVerificationStatus.verified = true
is_verified _ = false

abbrev pub is_pending_report : ReportStatus → Bool
is_pending_report ReportStatus.pending = true
is_pending_report _ = false

-- `{UserRole.ADMIN, UserRole.SUPER_ADMIN}`.
abbrev pub is_admin_role : UserRole → Bool
is_admin_role UserRole.admin = true
is_admin_role UserRole.super_admin = true
is_admin_role _ = false

abbrev pub is_super_admin : UserRole → Bool
is_super_admin UserRole.super_admin = true
is_super_admin _ = false

-- `reviewer.role in {"VERIFIER", "ADMIN", "SUPER_ADMIN"}`.
abbrev pub is_reviewer_role : UserRole → Bool
is_reviewer_role UserRole.verifier = true
is_reviewer_role UserRole.admin = true
is_reviewer_role UserRole.super_admin = true
is_reviewer_role _ = false

-- Two actions or two roles are equal when their places in the enumeration are.
unfoldable pub action_index : SwipeAction → ℕ
action_index SwipeAction.like = 0
action_index SwipeAction.pass = 1
action_index SwipeAction.super_like = 2

unfoldable pub role_index : UserRole → ℕ
role_index UserRole.user = 0
role_index UserRole.moderator = 1
role_index UserRole.verifier = 2
role_index UserRole.support = 3
role_index UserRole.finance = 4
role_index UserRole.analyst = 5
role_index UserRole.admin = 6
role_index UserRole.super_admin = 7

-- `role.value`.
unfoldable pub role_value : UserRole → String
role_value UserRole.user = "USER"
role_value UserRole.moderator = "MODERATOR"
role_value UserRole.verifier = "VERIFIER"
role_value UserRole.support = "SUPPORT"
role_value UserRole.finance = "FINANCE"
role_value UserRole.analyst = "ANALYST"
role_value UserRole.admin = "ADMIN"
role_value UserRole.super_admin = "SUPER_ADMIN"

-- `UserRole` members in order.
abbrev pub all_user_roles : List UserRole
all_user_roles =
    UserRole.user ∷ UserRole.moderator ∷ UserRole.verifier ∷ UserRole.support ∷ UserRole.finance
    ∷ UserRole.analyst ∷ UserRole.admin ∷ UserRole.super_admin ∷ []

-- `category.value` and `value_type.value`.
abbrev pub category_value : ConfigCategory → String
category_value ConfigCategory.branding = "BRANDING"
category_value ConfigCategory.app = "APP"
category_value ConfigCategory.features = "FEATURES"
category_value ConfigCategory.limits = "LIMITS"
category_value ConfigCategory.pricing = "PRICING"
category_value ConfigCategory.versions = "VERSIONS"
category_value ConfigCategory.legal = "LEGAL"
category_value ConfigCategory.support = "SUPPORT"

abbrev pub value_type_value : ConfigValueType → String
value_type_value ConfigValueType.string = "STRING"
value_type_value ConfigValueType.integer = "INTEGER"
value_type_value ConfigValueType.float = "FLOAT"
value_type_value ConfigValueType.boolean = "BOOLEAN"
value_type_value ConfigValueType.json = "JSON"
