-- ===== src/Access/Permissions.antt =====
-- The permission registry of app/security/permissions.py.
use matchmaking_backend.Prelude.{String, List, [], ◌∷◌}
use matchmaking_backend.Enums.{UserRole}

abbrev pub users_read : String
users_read = "users.read"

abbrev pub users_update : String
users_update = "users.update"

abbrev pub users_suspend : String
users_suspend = "users.suspend"

abbrev pub users_ban : String
users_ban = "users.ban"

abbrev pub users_delete : String
users_delete = "users.delete"

abbrev pub profiles_read : String
profiles_read = "profiles.read"

abbrev pub profiles_moderate : String
profiles_moderate = "profiles.moderate"

abbrev pub photos_moderate : String
photos_moderate = "photos.moderate"

abbrev pub verification_read : String
verification_read = "verification.read"

abbrev pub verification_approve : String
verification_approve = "verification.approve"

abbrev pub verification_reject : String
verification_reject = "verification.reject"

abbrev pub job_verification_read : String
job_verification_read = "job_verification.read"

abbrev pub job_verification_approve : String
job_verification_approve = "job_verification.approve"

abbrev pub job_verification_reject : String
job_verification_reject = "job_verification.reject"

abbrev pub reports_read : String
reports_read = "reports.read"

abbrev pub reports_resolve : String
reports_resolve = "reports.resolve"

abbrev pub messages_read_private : String
messages_read_private = "messages.read_private"

abbrev pub payments_read : String
payments_read = "payments.read"

abbrev pub payments_refund : String
payments_refund = "payments.refund"

abbrev pub subscriptions_read : String
subscriptions_read = "subscriptions.read"

abbrev pub subscriptions_manage : String
subscriptions_manage = "subscriptions.manage"

abbrev pub notifications_send : String
notifications_send = "notifications.send"

abbrev pub app_config_read : String
app_config_read = "app_config.read"

abbrev pub app_config_update : String
app_config_update = "app_config.update"

abbrev pub analytics_read : String
analytics_read = "analytics.read"

abbrev pub audit_logs_read : String
audit_logs_read = "audit_logs.read"

abbrev pub admin_users_read : String
admin_users_read = "admin_users.read"

abbrev pub admin_users_manage : String
admin_users_manage = "admin_users.manage"

-- `ALL_PERMISSIONS`.
unfoldable pub all_permissions : List String
all_permissions =
    users_read ∷ users_update ∷ users_suspend ∷ users_ban ∷ users_delete ∷ profiles_read
    ∷ profiles_moderate ∷ photos_moderate ∷ verification_read ∷ verification_approve
    ∷ verification_reject ∷ job_verification_read ∷ job_verification_approve
    ∷ job_verification_reject ∷ reports_read ∷ reports_resolve ∷ messages_read_private
    ∷ payments_read ∷ payments_refund ∷ subscriptions_read ∷ subscriptions_manage
    ∷ notifications_send ∷ app_config_read ∷ app_config_update ∷ analytics_read ∷ audit_logs_read
    ∷ admin_users_read ∷ admin_users_manage ∷ []

-- `ROLE_PERMISSIONS`, which `permissions_for_role_default` reads.
unfoldable pub permissions_for_role_default : UserRole → List String
permissions_for_role_default UserRole.super_admin = all_permissions
permissions_for_role_default UserRole.admin = all_permissions
permissions_for_role_default UserRole.moderator =
    users_read ∷ users_update ∷ users_suspend ∷ users_ban ∷ profiles_read ∷ profiles_moderate
    ∷ photos_moderate ∷ verification_read ∷ job_verification_read ∷ reports_read ∷ reports_resolve
    ∷ messages_read_private ∷ []
permissions_for_role_default UserRole.verifier =
    profiles_read ∷ photos_moderate ∷ verification_read ∷ verification_approve ∷ verification_reject
    ∷ job_verification_read ∷ job_verification_approve ∷ job_verification_reject ∷ []
permissions_for_role_default UserRole.support =
    users_read ∷ users_update ∷ profiles_read ∷ reports_read ∷ reports_resolve
    ∷ messages_read_private ∷ notifications_send ∷ []
permissions_for_role_default UserRole.finance =
    payments_read ∷ payments_refund ∷ subscriptions_read ∷ subscriptions_manage ∷ analytics_read
    ∷ []
permissions_for_role_default UserRole.analyst =
    users_read ∷ payments_read ∷ subscriptions_read ∷ analytics_read ∷ audit_logs_read ∷ []
permissions_for_role_default UserRole.user = []
