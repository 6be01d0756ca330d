-- ===== src/Moderation/Reports/Requests.antt =====
-- The requests on reports: the endpoints of app/api/v1/reports.py and app/api/v1/admin_moderation.py,
-- each with its commit. A message, reason or note is a text where the payload has one.
use matchmaking_backend.Prelude.{ℕ, Option, none, some, String, List, [], ◌∷◌}
use matchmaking_backend.Errors.{Error, Code}
use matchmaking_backend.Enums.{NotificationType, ReportStatus}
use matchmaking_backend.Models.{or_null, Json, User, Report}
use matchmaking_backend.World.{World, Exec, raise, or_raise, gets, notify, transaction, ◌>>=◌, ◌>>◌}
use matchmaking_backend.Accounts.Admin.{suspend, ban}
use matchmaking_backend.Moderation.Reports.{
  find_report, set_report, audit_report, create_report, assign_report, transition_report,
}

-- The endpoints of the moderators record once more what the service has recorded.
unfoldable pub assign_endpoint : User → ℕ → ℕ → ℕ → Exec (Unit {0})
assign_endpoint moderator id assignee_id now = do
  assign_report moderator id assignee_id now
  audit_report "report.assign" moderator.id id (("assignee_id", Json.uuid assignee_id) ∷ []) now

unfoldable pub review_endpoint : User → ℕ → String → Option String → ℕ → Exec (Unit {0})
review_endpoint moderator id status reason now = do
  transition_report moderator id status reason now
  audit_report "report.review" moderator.id id
      (("status", Json.text status) ∷ ("reason", or_null reason) ∷ []) now

-- `payload.get(key, default)`.
abbrev pub given_or : Option String → String → String
given_or none s = s
given_or (some t) s = t

-- `warn_reported_user` behind the lookup of the report.
unfoldable pub warn_found : User → ℕ → Option String → ℕ → Option Report → Exec (Unit {0})
warn_found moderator id message now none = raise (Error.not_found Code.report_not_found)
warn_found moderator id message now (some r) = do
  notify r.reported_user_id NotificationType.system "Account warning"
      (given_or message "Our moderation team has reviewed your account.") now
  audit_report "report.warn" moderator.id id
      (("message", or_null message) ∷ ("reported_user_id", Json.uuid r.reported_user_id) ∷ []) now

unfoldable pub warn_reported_user : User → ℕ → Option String → ℕ → Exec (Unit {0})
warn_reported_user moderator id message now w =
    warn_found moderator id message now (find_report id w) w

-- The assignments to the report after its user was suspended or banned.
abbrev pub settled : User → Report → Report
settled moderator r = record r { status = ReportStatus.resolved; reviewed_by = some moderator.id }

unfoldable pub suspend_reported_user :
    User → ℕ → Option String → Option ℕ → Option String → ℕ → Exec (Unit {0})
suspend_reported_user moderator id reason duration_minutes notes now = do
  found ← gets (find_report id)
  r ← or_raise found (Error.not_found Code.report_not_found)
  suspend moderator r.reported_user_id (given_or reason "Suspended following a report")
      duration_minutes notes now
  set_report id (settled moderator)

unfoldable pub ban_reported_user : User → ℕ → Option String → Option String → ℕ → Exec (Unit {0})
ban_reported_user moderator id reason notes now = do
  found ← gets (find_report id)
  r ← or_raise found (Error.not_found Code.report_not_found)
  ban moderator r.reported_user_id (given_or reason "Banned following a report") notes now
  set_report id (settled moderator)

pub data Request : Type 0 where
  create : User → ℕ → String → Option String → Request
  assign : User → ℕ → ℕ → Request
  transition : User → ℕ → String → Option String → Request
  warn : User → ℕ → Option String → Request
  suspend_reported : User → ℕ → Option String → Option ℕ → Option String → Request
  ban_reported : User → ℕ → Option String → Option String → Request

abbrev pub dispatch : Request → ℕ → Exec (Unit {0})
dispatch (Request.create reporter reported reason description) now =
    create_report reporter reported reason description now
dispatch (Request.assign moderator id assignee_id) now =
    assign_endpoint moderator id assignee_id now
dispatch (Request.transition moderator id status reason) now =
    review_endpoint moderator id status reason now
dispatch (Request.warn moderator id message) now = warn_reported_user moderator id message now
dispatch (Request.suspend_reported moderator id reason duration_minutes notes) now =
    suspend_reported_user moderator id reason duration_minutes notes now
dispatch (Request.ban_reported moderator id reason notes) now =
    ban_reported_user moderator id reason notes now

unfoldable pub handle : Request → ℕ → Exec (Unit {0})
handle r now = transaction (dispatch r now)

-- The world after the requests, each with its time.
unfoldable pub run : List (Request × ℕ) → World → World
run [] w = w
run ((r, now) ∷ rs) w = run rs (handle r now w).1
