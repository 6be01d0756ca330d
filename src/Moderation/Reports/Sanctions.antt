-- ===== src/Moderation/Reports/Sanctions.antt =====
-- `suspend_reported_user` and `ban_reported_user` of app/api/v1/admin_moderation.py, and the history
-- of the report.
use matchmaking_backend.Prelude.{
  ℕ, ◌≡◌, refl, ◌∙◌, ap, Bool, true, false, ◌&&◌, subst, ==_sound, Option, none, some, String, List,
  arith, ◌==◌, first, select, select-add, update_first, after, if◌then◌else◌,
}
use matchmaking_backend.Errors.{is_ok}
use matchmaking_backend.Enums.{ReportStatus}
use matchmaking_backend.Models.{User, Report}
use matchmaking_backend.World.{World}
use matchmaking_backend.Accounts.Admin.{suspend, ban, find_user}
use matchmaking_backend.Accounts.Tokens.{revoke_all_for_user}
use matchmaking_backend.Moderation.Reports.{is_report, find_report, is_about, history}
use matchmaking_backend.Moderation.Reports.Replay.{status_of, current, current-update}
use matchmaking_backend.Moderation.Reports.Requests.{
  settled, given_or, suspend_reported_user, ban_reported_user,
}

-- Neither touches a report or its history.
suspend_keeps :
    (id : ℕ) (admin : User) (user_id : ℕ) (reason : String) (duration : Option ℕ)
    (notes : Option String) (now : ℕ) (w : World)
    → (select (is_about id) (suspend admin user_id reason duration notes now w).1.audit_logs
        ≡ select (is_about id) w.audit_logs)
      × ((suspend admin user_id reason duration notes now w).1.reports ≡ w.reports)
unfolding suspend find_user revoke_all_for_user
suspend_keeps id admin user_id reason duration notes now w = grind (arith, select-add)

ban_keeps :
    (id : ℕ) (admin : User) (user_id : ℕ) (reason : String) (notes : Option String) (now : ℕ)
    (w : World)
    → (select (is_about id) (ban admin user_id reason notes now w).1.audit_logs
        ≡ select (is_about id) w.audit_logs)
      × ((ban admin user_id reason notes now w).1.reports ≡ w.reports)
unfolding ban find_user revoke_all_for_user
ban_keeps id admin user_id reason notes now w = grind (arith, select-add)

-- The rows after a request that settles a report where it returns.
abbrev settled_rows : ℕ → User → Bool → List Report → List Report
settled_rows id moderator returned rows =
    if returned then update_first (is_report id) (settled moderator) rows else rows

suspend_found :
    (id : ℕ) (moderator : User) (other : ℕ) (reason : Option String) (duration : Option ℕ)
    (notes : Option String) (now : ℕ) (w : World) {r : Report}
    → find_report other w ≡ some r
    → (history id (suspend_reported_user moderator other reason duration notes now w).1
        ≡ history id w)
      × ((suspend_reported_user moderator other reason duration notes now w).1.reports
          ≡ settled_rows other moderator
              (is_ok (suspend_reported_user moderator other reason duration notes now w).0)
              w.reports)
unfolding suspend_reported_user history
suspend_found id moderator other reason duration notes now w {r} e = ground (
  arith,
  suspend_keeps id moderator r.reported_user_id (given_or reason "Suspended following a report")
      duration notes now w,
)

suspend_missing :
    (id : ℕ) (moderator : User) (other : ℕ) (reason : Option String) (duration : Option ℕ)
    (notes : Option String) (now : ℕ) (w : World)
    → find_report other w ≡ none
    → (is_ok (suspend_reported_user moderator other reason duration notes now w).0 ≡ false)
      × ((suspend_reported_user moderator other reason duration notes now w).1 ≡ w)
unfolding suspend_reported_user
suspend_missing id moderator other reason duration notes now w e = ground arith

ban_found :
    (id : ℕ) (moderator : User) (other : ℕ) (reason : Option String) (notes : Option String)
    (now : ℕ) (w : World) {r : Report}
    → find_report other w ≡ some r
    → (history id (ban_reported_user moderator other reason notes now w).1 ≡ history id w)
      × ((ban_reported_user moderator other reason notes now w).1.reports
          ≡ settled_rows other moderator
              (is_ok (ban_reported_user moderator other reason notes now w).0)
              w.reports)
unfolding ban_reported_user history
ban_found id moderator other reason notes now w {r} e = ground (
  arith,
  ban_keeps id moderator r.reported_user_id (given_or reason "Banned following a report") notes now
      w,
)

ban_missing :
    (id : ℕ) (moderator : User) (other : ℕ) (reason : Option String) (notes : Option String)
    (now : ℕ) (w : World)
    → find_report other w ≡ none
    → (is_ok (ban_reported_user moderator other reason notes now w).0 ≡ false)
      × ((ban_reported_user moderator other reason notes now w).1 ≡ w)
unfolding ban_reported_user
ban_missing id moderator other reason notes now w e = ground arith

-- The status of a report after a request that settles one.
abbrev pub settled_status : Bool → Bool → Option ReportStatus → Option ReportStatus
settled_status same returned before =
    if same && returned then some ReportStatus.resolved else before

status_settled :
    (id : ℕ) (moderator : User) (other : ℕ) (returned : Bool) (rows : List Report) {r : Report}
    → first (is_report other) rows ≡ some r
    → status_of (first (is_report id) (settled_rows other moderator returned rows))
      ≡ settled_status (other == id) returned (status_of (first (is_report id) rows))
status_settled id moderator other false rows e = ground arith
status_settled id moderator other true rows {r} e =
    current-update id other (settled moderator) rows (λ r. refl)
    ∙ by (other == id) (first (is_report id) rows)
        λ same. subst (λ n. first (is_report n) rows ≡ some r) (==_sound other id same) e
  where
    by :
        (same : Bool) (o : Option Report)
        → (same ≡ true → o ≡ some r)
        → (if same then status_of (after (λ x. true) (settled moderator) o) else status_of o)
          ≡ settled_status same true (status_of o)
    by true none k = ground (arith, k refl)
    by true (some x) k = refl
    by false o k = refl

unsettled : {o : Option ReportStatus} (b : Bool) → o ≡ settled_status b false o
unsettled true = refl
unsettled false = refl

suspend_settles :
    (id : ℕ) (moderator : User) (other : ℕ) (reason : Option String) (duration : Option ℕ)
    (notes : Option String) (now : ℕ) (w : World) (o : Option Report)
    → find_report other w ≡ o
    → (history id (suspend_reported_user moderator other reason duration notes now w).1
        ≡ history id w)
      × (current id (suspend_reported_user moderator other reason duration notes now w).1
          ≡ settled_status
              (other == id)
              (is_ok (suspend_reported_user moderator other reason duration notes now w).0)
              (current id w))
unfolding current
suspend_settles id moderator other reason duration notes now w none e =
    let (failed, same) = suspend_missing id moderator other reason duration notes now w e in
    (ap (history id) same, rw failed (rw same (unsettled (other == id))))
suspend_settles id moderator other reason duration notes now w (some r) e =
    let (kept, rows) = suspend_found id moderator other reason duration notes now w {r = r} e in
    let returned = is_ok (suspend_reported_user moderator other reason duration notes now w).0 in
    (
      kept,
      ap (λ rows. status_of (first (is_report id) rows)) rows
          ∙ status_settled id moderator other returned w.reports {r = r} e,
    )

ban_settles :
    (id : ℕ) (moderator : User) (other : ℕ) (reason : Option String) (notes : Option String)
    (now : ℕ) (w : World) (o : Option Report)
    → find_report other w ≡ o
    → (history id (ban_reported_user moderator other reason notes now w).1 ≡ history id w)
      × (current id (ban_reported_user moderator other reason notes now w).1
          ≡ settled_status
              (other == id)
              (is_ok (ban_reported_user moderator other reason notes now w).0)
              (current id w))
unfolding current
ban_settles id moderator other reason notes now w none e =
    let (failed, same) = ban_missing id moderator other reason notes now w e in
    (ap (history id) same, rw failed (rw same (unsettled (other == id))))
ban_settles id moderator other reason notes now w (some r) e =
    let (kept, rows) = ban_found id moderator other reason notes now w {r = r} e in
    let returned = is_ok (ban_reported_user moderator other reason notes now w).0 in
    (
      kept,
      ap (λ rows. status_of (first (is_report id) rows)) rows
          ∙ status_settled id moderator other returned w.reports {r = r} e,
    )

-- Suspending or banning the reported user of a report leaves the history of every report as it was,
-- whether it returns or raises, and makes the status of that report, and of no other, RESOLVED
-- exactly where it returns, changing no status otherwise.
pub sanctions-history :
    (id : ℕ) (moderator : User) (other : ℕ) (reason : Option String) (duration : Option ℕ)
    (notes : Option String) (now : ℕ) (w : World)
    → (history id (suspend_reported_user moderator other reason duration notes now w).1
        ≡ history id w)
      × (current id (suspend_reported_user moderator other reason duration notes now w).1
          ≡ settled_status
              (other == id)
              (is_ok (suspend_reported_user moderator other reason duration notes now w).0)
              (current id w))
      × (history id (ban_reported_user moderator other reason notes now w).1 ≡ history id w)
      × (current id (ban_reported_user moderator other reason notes now w).1
          ≡ settled_status
              (other == id)
              (is_ok (ban_reported_user moderator other reason notes now w).0)
              (current id w))
sanctions-history id moderator other reason duration notes now w =
    let (a, b) =
      suspend_settles id moderator other reason duration notes now w (find_report other w) refl in
    let (c, d) = ban_settles id moderator other reason notes now w (find_report other w) refl in
    (a, b, c, d)
