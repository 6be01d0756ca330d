-- ===== src/Moderation/Reports.antt =====
-- `ReportService` of app/services/report_service.py; Requests has the endpoints.
use matchmaking_backend.Prelude.{
  ℕ, ◌==◌, Bool, true, false, Option, none, some, String, List, [], ◌∷◌, if◌then◌else◌, str_eq,
  first, exists, select, update_first, add, is_none,
}
use matchmaking_backend.Errors.{Error, Code, Fault}
use matchmaking_backend.Enums.{ReportStatus, is_pending_report}
use matchmaking_backend.Models.{or_null, Json, User, Report, AuditLog}
use matchmaking_backend.World.{
  World, Exec, raise, gets, ◌>>=◌, ◌>>◌, raise_if, modify, gen_uuid, get_user, audit,
}
pub mod Requests
pub mod Replay
pub mod Tracked
pub mod Trail
pub mod Sanctions

-- `ReportStatus`, its values, and the test `status not in ALLOWED_STATUSES`.
abbrev pub status_value : ReportStatus → String
status_value ReportStatus.pending = "PENDING"
status_value ReportStatus.under_review = "UNDER_REVIEW"
status_value ReportStatus.resolved = "RESOLVED"
status_value ReportStatus.dismissed = "DISMISSED"
status_value ReportStatus.escalated = "ESCALATED"

abbrev pub to_status : String → Option ReportStatus
to_status s =
    if str_eq s "PENDING"
    then some ReportStatus.pending
    else if str_eq s "UNDER_REVIEW"
    then some ReportStatus.under_review
    else if str_eq s "RESOLVED"
    then some ReportStatus.resolved
    else if str_eq s "DISMISSED"
    then some ReportStatus.dismissed
    else if str_eq s "ESCALATED"
    then some ReportStatus.escalated
    else none

abbrev pub is_report : ℕ → Report → Bool
is_report id r = r.id == id

abbrev pub find_report : ℕ → World → Option Report
find_report id w = first (is_report id) w.reports

abbrev pub new_report : ℕ → ℕ → ℕ → String → Option String → ℕ → Report
new_report id reporter_id reported_user_id reason description now = record {
  id = id;
  reporter_id = reporter_id;
  reported_user_id = reported_user_id;
  reason = reason;
  description = description;
  status = ReportStatus.pending;
  reviewed_by = none;
  reviewed_at = none;
  created_at = now;
}

abbrev pub audit_report : String → ℕ → ℕ → List (String × Json) → ℕ → Exec (Unit {0})
audit_report action actor id meta now = audit action (some actor) "report" (Json.uuid id) meta now

-- The flush of a new report: `reports.id` is the primary key.
unfoldable pub insert_report : ℕ → ℕ → String → Option String → ℕ → ℕ → Bool → Exec (Unit {0})
insert_report reporter_id reported_user_id reason description now id true =
    raise (Error.fault Fault.pk_report)
insert_report reporter_id reported_user_id reason description now id false = do
  modify λ w. record w {
    reports = add (new_report id reporter_id reported_user_id reason description now) w.reports;
  }
  audit_report "report.create" reporter_id id [] now

-- `ReportService.create` behind its two tests.
unfoldable pub create_checked :
    User → ℕ → String → Option String → ℕ → Bool → Bool → Exec (Unit {0})
create_checked reporter reported_user_id reason description now true missing =
    raise (Error.forbidden Code.self_report)
create_checked reporter reported_user_id reason description now false true =
    raise (Error.not_found Code.user_not_found)
create_checked reporter reported_user_id reason description now false false = do
  id ← gen_uuid
  taken ← gets λ w. exists (is_report id) w.reports
  insert_report reporter.id reported_user_id reason description now id taken

unfoldable pub create_report : User → ℕ → String → Option String → ℕ → Exec (Unit {0})
create_report reporter reported_user_id reason description now w =
    create_checked reporter reported_user_id reason description now
      (reporter.id == reported_user_id) (is_none (get_user reported_user_id w)) w

abbrev pub set_report : ℕ → (Report → Report) → Exec (Unit {0})
set_report id f = modify λ w. record w { reports = update_first (is_report id) f w.reports }

abbrev pub assigned_status : ReportStatus → ReportStatus
assigned_status s = if is_pending_report s then ReportStatus.under_review else s

abbrev pub assigned : ℕ → ℕ → Report → Report
assigned assignee_id now r = record r {
  status = assigned_status r.status;
  reviewed_by = some assignee_id;
  reviewed_at = some now;
}

abbrev pub reviewed : ℕ → ReportStatus → ℕ → Report → Report
reviewed moderator_id status now r = record r {
  status = status;
  reviewed_by = some moderator_id;
  reviewed_at = some now;
}

-- `ReportService.assign` behind its two lookups.
unfoldable pub assign_found : User → ℕ → ℕ → ℕ → Option Report → Option User → Exec (Unit {0})
assign_found moderator id assignee_id now none assignee =
    raise (Error.not_found Code.report_not_found)
assign_found moderator id assignee_id now (some r) none =
    raise (Error.not_found Code.user_not_found)
assign_found moderator id assignee_id now (some r) (some assignee) = do
  set_report id (assigned assignee.id now)
  audit_report "report.assign" moderator.id id (("assignee_id", Json.uuid assignee_id) ∷ []) now

unfoldable pub assign_report : User → ℕ → ℕ → ℕ → Exec (Unit {0})
assign_report moderator id assignee_id now w =
    assign_found moderator id assignee_id now (find_report id w) (get_user assignee_id w) w

-- `ReportService.transition` behind its test and its lookup.
unfoldable pub transition_found :
    User → ℕ → Option String → ℕ → Option ReportStatus → Option Report → Exec (Unit {0})
transition_found moderator id reason now none found =
    raise (Error.validation Code.invalid_report_status)
transition_found moderator id reason now (some status) none =
    raise (Error.not_found Code.report_not_found)
transition_found moderator id reason now (some status) (some r) = do
  set_report id (reviewed moderator.id status now)
  audit_report "report.review" moderator.id id
      (("status", Json.text (status_value status)) ∷ ("reason", or_null reason) ∷ []) now

unfoldable pub transition_report : User → ℕ → String → Option String → ℕ → Exec (Unit {0})
transition_report moderator id status reason now w =
    transition_found moderator id reason now (to_status status) (find_report id w) w

-- Whether a log entry is about the report: the clause of `history`.
abbrev pub is_report_entity : ℕ → Option String → Option Json → Bool
is_report_entity id (some type) (some (Json.uuid n)) =
    if str_eq type "report" then n == id else false
is_report_entity id _ _ = false

abbrev pub is_about : ℕ → AuditLog → Bool
is_about id l = is_report_entity id l.entity_type l.entity_id

-- The rows of `ReportService.history`, the oldest first.
unfoldable pub history : ℕ → World → List AuditLog
history id w = select (is_about id) w.audit_logs
