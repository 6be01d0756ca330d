-- ===== src/Moderation/Reports/Trail.antt =====
-- The audit trail of a report (app/services/report_service.py) against the row.
use matchmaking_backend.Prelude.{
  ℕ, ◌+◌, is_none, ◌==◌, ◌≡◌, refl, sym, ap, ◌∙◌, Bool, true, false, Option, none, some, String,
  List, [], ◌∷◌, arith, exists,
}
use matchmaking_backend.Errors.{Result, ok, err, is_ok}
use matchmaking_backend.Enums.{NotificationType}
use matchmaking_backend.Models.{or_null, Json, User, Report}
use matchmaking_backend.World.{notify, get_user, World, Exec, transaction}
use matchmaking_backend.Moderation.Reports.{
  to_status, is_report, create_checked, create_report, find_report, assign_report,
  transition_report, history,
}
use matchmaking_backend.Moderation.Reports.Requests.{
  given_or, suspend_reported_user, ban_reported_user, Request, dispatch, handle, run,
  assign_endpoint, review_endpoint, warn_found, warn_reported_user,
}
use matchmaking_backend.Moderation.Reports.Replay.{replay, current}
use matchmaking_backend.Moderation.Reports.Sanctions.{settled_status, sanctions-history}
use matchmaking_backend.Moderation.Reports.Tracked.{
  IsTracked, insert_report-IsTracked, assign_logged-IsTracked, transition_logged-IsTracked,
  audit_report-IsTracked,
}

create_checked-IsTracked :
    (id : ℕ) (reporter : User) (reported : ℕ) (reason : String) (description : Option String)
    (now : ℕ)
    → (self missing : Bool) (w : World) → IsTracked id w
    → IsTracked id (create_checked reporter reported reason description now self missing w).1
unfolding create_checked IsTracked history current
create_checked-IsTracked id reporter reported reason description now true missing w h = h
create_checked-IsTracked id reporter reported reason description now false true w h = h
create_checked-IsTracked id reporter reported reason description now false false w h =
    let other = w.uuid4 w.drawn in
    insert_report-IsTracked id reporter.id reported reason description now other
      (exists (is_report other) w.reports) (record w { drawn = w.drawn + 1 }) refl h

warn_found-IsTracked :
    (id : ℕ) (moderator : User) (other : ℕ) (message : Option String) (now : ℕ)
    → (found : Option Report) (w : World) → IsTracked id w
    → IsTracked id (warn_found moderator other message now found w).1
unfolding warn_found IsTracked history current
warn_found-IsTracked id moderator other message now none w h = h
warn_found-IsTracked id moderator other message now (some r) w h =
    audit_report-IsTracked id other moderator.id now "report.warn"
      (("message", or_null message) ∷ ("reported_user_id", Json.uuid r.reported_user_id) ∷ [])
      (notify r.reported_user_id NotificationType.system "Account warning"
        (given_or message "Our moderation team has reviewed your account.") now w).1
      (λ e. refl) h

-- The requests that resolve a report without an entry in its history.
abbrev pub settles : ℕ → Request → Bool
settles id (Request.suspend_reported moderator other reason duration_minutes notes) = other == id
settles id (Request.ban_reported moderator other reason notes) = other == id
settles id r = false

kept-IsTracked :
    (id : ℕ) (w w' : World) (same returned : Bool)
    → same ≡ false
    → history id w' ≡ history id w
    → current id w' ≡ settled_status same returned (current id w)
    → IsTracked id w
    → IsTracked id w'
unfolding IsTracked
kept-IsTracked id w w' true returned e k c h = ground arith
kept-IsTracked id w w' false returned e k c h = ap (replay none) k ∙ h ∙ sym c

dispatch-IsTracked :
    (id : ℕ) (r : Request) (now : ℕ) (w : World)
    → settles id r ≡ false
    → IsTracked id w
    → IsTracked id (dispatch r now w).1
unfolding create_report assign_report transition_report assign_endpoint review_endpoint
    warn_reported_user
dispatch-IsTracked id (Request.create reporter reported reason description) now w e h =
    create_checked-IsTracked id reporter reported reason description now (reporter.id == reported)
      (is_none (get_user reported w)) w h
dispatch-IsTracked id (Request.assign moderator other assignee_id) now w e h =
    assign_logged-IsTracked id moderator other assignee_id now
      (("assignee_id", Json.uuid assignee_id) ∷ []) (find_report other w) (get_user assignee_id w) w
      h
dispatch-IsTracked id (Request.transition moderator other status reason) now w e h =
    transition_logged-IsTracked id moderator other status reason now (to_status status)
      (find_report other w) w refl refl h
dispatch-IsTracked id (Request.warn moderator other message) now w e h =
    warn_found-IsTracked id moderator other message now (find_report other w) w h
dispatch-IsTracked id (Request.suspend_reported moderator other reason duration notes) now w e h =
    let (kept, status, _, _) = sanctions-history id moderator other reason duration notes now w in
    let (answer, w') = suspend_reported_user moderator other reason duration notes now w in
    kept-IsTracked id w w' (other == id) (is_ok answer) e kept status h
dispatch-IsTracked id (Request.ban_reported moderator other reason notes) now w e h =
    let (_, _, kept, status) = sanctions-history id moderator other reason none notes now w in
    let (answer, w') = ban_reported_user moderator other reason notes now w in
    kept-IsTracked id w w' (other == id) (is_ok answer) e kept status h

transaction-IsTracked :
    {A : Type 0} (id : ℕ) (m : Exec A) (w : World) (r : Result A)
    → (m w).0 ≡ r
    → IsTracked id w
    → IsTracked id (m w).1
    → IsTracked id (transaction m w).1
unfolding IsTracked history current
transaction-IsTracked id m w (ok a) e h k = rw (e, transaction) k
transaction-IsTracked id m w (err x) e h k = rw (e, transaction) h

-- If the history of a report gives, entry by entry, the status in its row, it still does after any
-- sequence of reports, assignments, reviews, warnings, suspensions and bans on reports, whether
-- each returns or raises, in which no request is to suspend or ban the reported user of this
-- report.
pub run-current :
    (id : ℕ) (rs : List (Request × ℕ)) (w : World)
    → exists (λ r. settles id r.0) rs ≡ false
    → replay none (history id w) ≡ current id w
    → replay none (history id (run rs w)) ≡ current id (run rs w)
unfolding run handle IsTracked
run-current id [] w none_settles h = h
run-current id ((r, now) ∷ rs) w none_settles h =
    let first_ : settles id r ≡ false = ground arith in
    let rest : exists (λ r. settles id r.0) rs ≡ false = ground arith in
    run-current id rs (handle r now w).1 rest (
      transaction-IsTracked id (dispatch r now) w (dispatch r now w).0 refl h
        (dispatch-IsTracked id r now w first_ h))
