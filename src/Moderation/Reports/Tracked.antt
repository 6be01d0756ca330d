-- ===== src/Moderation/Reports/Tracked.antt =====
-- The history of a report against its row, over the operations of app/services/report_service.py.
use matchmaking_backend.Prelude.{
  update_first, ℕ, ◌==◌, ◌≡◌, refl, sym, ap, ◌∙◌, subst, Bool, true, false, Option, none, some,
  String, [], ◌∷◌, arith, if◌then◌else◌, first, exists, after, ==_sound,
}
use matchmaking_backend.Enums.{ReportStatus}
use matchmaking_backend.Models.{JsonDict, or_null, Json, User, Report}
use matchmaking_backend.World.{◌>>◌, World}
use matchmaking_backend.Moderation.Reports.{
  audit_report, assigned_status, status_value, to_status, is_report, assigned, reviewed, new_report,
  insert_report, assign_found, transition_found, history,
}
use matchmaking_backend.Moderation.Reports.Replay.{
  effect, assigned_opt, replay, status_of, current, log, replay-history, current-add,
  current-update,
}

-- The row has the status that the history gives.
unfoldable pub IsTracked : ℕ → World → Type 0
IsTracked id w = replay none (history id w) ≡ current id w

pub insert_report-IsTracked :
    (id reporter_id reported_user_id : ℕ) (reason : String) (description : Option String)
    (now other : ℕ)
    → (taken : Bool) (w : World) → exists (is_report other) w.reports ≡ taken
    → IsTracked id w
    → IsTracked id
        (insert_report reporter_id reported_user_id reason description now other taken w).1
unfolding insert_report IsTracked history current
insert_report-IsTracked id reporter_id reported_user_id reason description now other true w e h = h
insert_report-IsTracked id reporter_id reported_user_id reason description now other false w e h =
    let r = new_report other reporter_id reported_user_id reason description now in
    let l = log (w.uuid4 w.drawn) reporter_id "report.create" other [] now in
    replay-history id l w.audit_logs
    ∙ ap (λ o. if other == id then some ReportStatus.pending else o) h
    ∙ sym (current-add id r w.reports e)

assign_found-IsTracked :
    (id : ℕ) (moderator : User) (other assignee_id now : ℕ) (found : Option Report)
    (assignee : Option User) (w : World)
    → IsTracked id w
    → IsTracked id (assign_found moderator other assignee_id now found assignee w).1
unfolding assign_found IsTracked history current
assign_found-IsTracked id moderator other assignee_id now none assignee w h = h
assign_found-IsTracked id moderator other assignee_id now (some r) none w h = h
assign_found-IsTracked id moderator other assignee_id now (some r) (some u) w h =
    let l =
      log (w.uuid4 w.drawn) moderator.id "report.assign" other
        (("assignee_id", Json.uuid assignee_id) ∷ []) now in
    replay-history id l w.audit_logs
    ∙ ap (λ o. if other == id then assigned_opt o else o) h
    ∙ same (first (is_report id) w.reports) (other == id)
    ∙ sym (current-update id other (assigned u.id now) w.reports (λ r. refl))
  where
    same :
        (o : Option Report) (b : Bool)
        → (if b then assigned_opt (status_of o) else status_of o)
          ≡ (if b then status_of (after (λ x. true) (assigned u.id now) o) else status_of o)
    same none true = refl
    same (some r) true = refl
    same o false = refl

-- A status is read back from its text.
to_status-status_value : (s : ReportStatus) → to_status (status_value s) ≡ some s
to_status-status_value ReportStatus.pending = refl
to_status-status_value ReportStatus.under_review = refl
to_status-status_value ReportStatus.resolved = refl
to_status-status_value ReportStatus.dismissed = refl
to_status-status_value ReportStatus.escalated = refl

transition_found-IsTracked :
    (id : ℕ) (moderator : User) (other : ℕ) (reason : Option String) (now : ℕ)
    → (status : Option ReportStatus) (found : Option Report) (w : World)
    → first (is_report other) w.reports ≡ found
    → IsTracked id w
    → IsTracked id (transition_found moderator other reason now status found w).1
unfolding transition_found IsTracked history current
transition_found-IsTracked id moderator other reason now none found w e h = h
transition_found-IsTracked id moderator other reason now (some s) none w e h = h
transition_found-IsTracked id moderator other reason now (some s) (some r) w e h =
    let meta = ("status", Json.text (status_value s)) ∷ ("reason", or_null reason) ∷ [] in
    let l = log (w.uuid4 w.drawn) moderator.id "report.review" other meta now in
    replay-history id l w.audit_logs
    ∙ ap (λ o. if other == id then to_status (status_value s) else o) h
    ∙ ap (λ t. if other == id then t else current id w) (to_status-status_value s)
    ∙ same (first (is_report id) w.reports) (other == id)
        (λ q. subst (λ n. first (is_report n) w.reports ≡ some r) (==_sound other id q) e)
    ∙ sym (current-update id other (reviewed moderator.id s now) w.reports (λ r. refl))
  where
    same :
        (o : Option Report) (b : Bool)
        → (b ≡ true → o ≡ some r)
        → (if b then some s else status_of o) ≡ (
            if b
            then status_of (after (λ x. true) (reviewed moderator.id s now) o)
            else status_of o)
    same none true k = ground (arith, k refl)
    same (some r) true k = refl
    same o false k = refl

-- An entry that the status allows for keeps the row and the history in step.
pub audit_report-IsTracked :
    (id other actor now : ℕ) (action : String) (meta : JsonDict) (w : World)
    → ((other == id) ≡ true → effect action meta (current id w) ≡ current id w)
    → IsTracked id w
    → IsTracked id (audit_report action actor other meta now w).1
unfolding IsTracked history current
audit_report-IsTracked id other actor now action meta w k h =
    replay-history id (log (w.uuid4 w.drawn) actor action other meta now) w.audit_logs
    ∙ ap (λ o. if other == id then effect action meta o else o) h
    ∙ by (other == id) k
  where
    by :
        (b : Bool)
        → (b ≡ true → effect action meta (current id w) ≡ current id w)
        → (if b then effect action meta (current id w) else current id w) ≡ current id w
    by true k = k refl
    by false k = refl

assigned_status_twice : (s : ReportStatus) → assigned_status (assigned_status s) ≡ assigned_status s
assigned_status_twice ReportStatus.pending = refl
assigned_status_twice ReportStatus.under_review = refl
assigned_status_twice ReportStatus.resolved = refl
assigned_status_twice ReportStatus.dismissed = refl
assigned_status_twice ReportStatus.escalated = refl

pub assign_logged-IsTracked :
    (id : ℕ) (moderator : User) (other assignee_id now : ℕ) (meta : JsonDict)
    → (found : Option Report) (assignee : Option User) (w : World) → IsTracked id w
    → IsTracked id
        ((assign_found moderator other assignee_id now found assignee
            >> audit_report "report.assign" moderator.id other meta now)
          w).1
unfolding assign_found current
assign_logged-IsTracked id moderator other assignee_id now meta none assignee w h = h
assign_logged-IsTracked id moderator other assignee_id now meta (some r) none w h = h
assign_logged-IsTracked id moderator other assignee_id now meta (some r) (some u) w h =
    audit_report-IsTracked id other moderator.id now "report.assign" meta
      (assign_found moderator other assignee_id now (some r) (some u) w).1 stays
      (assign_found-IsTracked id moderator other assignee_id now (some r) (some u) w h)
  where
    settled :
        (o : Option Report)
        → assigned_opt (status_of (after (λ x. true) (assigned u.id now) o))
          ≡ status_of (after (λ x. true) (assigned u.id now) o)
    settled none = refl
    settled (some x) = ap some (assigned_status_twice x.status)

    stays :
        (other == id) ≡ true
        → assigned_opt (
            status_of
              (first (is_report id) (update_first (is_report other) (assigned u.id now) w.reports)))
          ≡ status_of
              (first (is_report id) (update_first (is_report other) (assigned u.id now) w.reports))
    stays q =
        let now_ = current-update id other (assigned u.id now) w.reports (λ r. refl) ∙ rw q refl in
        ap assigned_opt now_ ∙ settled (first (is_report id) w.reports) ∙ sym now_

pub transition_logged-IsTracked :
    (id : ℕ) (moderator : User) (other : ℕ) (text : String) (reason : Option String) (now : ℕ)
    → (status : Option ReportStatus) (found : Option Report) (w : World) → to_status text ≡ status
    → first (is_report other) w.reports ≡ found
    → IsTracked id w
    → IsTracked id
        ((transition_found moderator other reason now status found
            >> audit_report "report.review" moderator.id other
                (("status", Json.text text) ∷ ("reason", or_null reason) ∷ [])
                now)
          w).1
unfolding transition_found current
transition_logged-IsTracked id moderator other text reason now none found w d e h = h
transition_logged-IsTracked id moderator other text reason now (some s) none w d e h = h
transition_logged-IsTracked id moderator other text reason now (some s) (some r) w d e h =
    audit_report-IsTracked id other moderator.id now "report.review"
      (("status", Json.text text) ∷ ("reason", or_null reason) ∷ [])
      (transition_found moderator other reason now (some s) (some r) w).1 stays
      (transition_found-IsTracked id moderator other reason now (some s) (some r) w e h)
  where
    stays :
        (other == id) ≡ true
        → to_status text
          ≡ status_of (
              first
                (is_report id)
                (update_first (is_report other) (reviewed moderator.id s now) w.reports))
    stays q =
        let known = subst (λ n. first (is_report n) w.reports ≡ some r) (==_sound other id q) e in
        d
        ∙ sym (
            current-update id other (reviewed moderator.id s now) w.reports (λ r. refl)
            ∙ rw q (rw known refl))
