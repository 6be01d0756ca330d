-- ===== src/Moderation/Reports/Replay.antt =====
-- What the history of a report (app/services/report_service.py) says of its status.
use matchmaking_backend.Prelude.{
  ℕ, ◌==◌, ◌≡◌, refl, ap, ◌∙◌, subst, Bool, true, false, Option, none, some, String, List, [], ◌∷◌,
  arith, if◌then◌else◌, str_eq, first, exists, first-add, select, select-add, after,
  first-update_first, first-update_first_other, ==_sound, update_first, add, is_some, first-exists,
}
use matchmaking_backend.Enums.{ReportStatus}
use matchmaking_backend.Models.{Json, JsonDict, Report, AuditLog}
use matchmaking_backend.World.{World}
use matchmaking_backend.Moderation.Reports.{to_status, is_report, assigned_status, is_about}

abbrev pub assigned_opt : Option ReportStatus → Option ReportStatus
assigned_opt none = none
assigned_opt (some s) = some (assigned_status s)

-- The status that the metadata of a review records.
abbrev recorded : JsonDict → Option ReportStatus
recorded [] = none
recorded ((name, Json.text s) ∷ rest) =
    let later = recorded rest in if str_eq name "status" then to_status s else later
recorded (_ ∷ rest) = recorded rest

-- What an entry of the history does to the status.
abbrev pub effect : String → JsonDict → Option ReportStatus → Option ReportStatus
effect action meta before =
    if str_eq action "report.create"
    then some ReportStatus.pending
    else if str_eq action "report.assign"
    then assigned_opt before
    else if str_eq action "report.review"
    then recorded meta
    else before

-- The status that a history gives, from the one before it.
unfoldable pub replay : Option ReportStatus → List AuditLog → Option ReportStatus
replay before [] = before
replay before (l ∷ rest) = replay (effect l.action l.meta before) rest

-- The status in the row.
abbrev pub status_of : Option Report → Option ReportStatus
status_of none = none
status_of (some r) = some r.status

unfoldable pub current : ℕ → World → Option ReportStatus
current id w = status_of (first (is_report id) w.reports)

replay-add :
    (before : Option ReportStatus) (l : AuditLog) (xs : List AuditLog)
    → replay before (add l xs) ≡ effect l.action l.meta (replay before xs)
unfolding replay
replay-add before l [] = refl
replay-add before l (x ∷ xs) = replay-add (effect x.action x.meta before) l xs

abbrev step : ℕ → AuditLog → Option ReportStatus → Option ReportStatus
step id l o = if is_about id l then effect l.action l.meta o else o

pub replay-history :
    (id : ℕ) (l : AuditLog) (logs : List AuditLog)
    → replay none (select (is_about id) (add l logs))
      ≡ step id l (replay none (select (is_about id) logs))
replay-history id l logs = by (is_about id l) refl
  where
    by :
        (b : Bool)
        → is_about id l ≡ b
        → replay none (select (is_about id) (add l logs)) ≡ (
            if b
            then effect l.action l.meta (replay none (select (is_about id) logs))
            else replay none (select (is_about id) logs))
    by true e =
        ap (replay none) (select-add (is_about id) l logs ∙ rw e refl)
        ∙ replay-add none l (select (is_about id) logs)
    by false e = ap (replay none) (select-add (is_about id) l logs ∙ rw e refl)

clash : true ≡ false → ⊥
clash e = ground arith

-- The status in the row after an insertion and after assignments to a row.
pub current-add :
    (id : ℕ) (r : Report) (rows : List Report)
    → exists (is_report r.id) rows ≡ false
    → status_of (first (is_report id) (add r rows))
      ≡ (if r.id == id then some r.status else status_of (first (is_report id) rows))
current-add id r rows h =
    ap status_of (first-add (is_report id) r rows)
    ∙ chosen (r.id == id) (exists (is_report id) rows) (first (is_report id) rows)
        (first-exists (is_report id) rows)
        (λ e. subst (λ n. exists (is_report n) rows ≡ false) (==_sound r.id id e) h)
  where
    chosen :
        (same known : Bool) (o : Option Report)
        → is_some o ≡ known
        → (same ≡ true → known ≡ false)
        → status_of (if known then o else if same then some r else none)
          ≡ (if same then some r.status else status_of o)
    chosen true true o e k = absurd (clash (k refl))
    chosen true false o e k = refl
    chosen false true o e k = refl
    chosen false false none e k = refl
    chosen false false (some x) e k = ground arith

pub current-update :
    (id other : ℕ) (f : Report → Report) (rows : List Report)
    → ((r : Report) → (f r).id ≡ r.id)
    → status_of (first (is_report id) (update_first (is_report other) f rows)) ≡ (
        if other == id
        then status_of (after (λ x. true) f (first (is_report id) rows))
        else status_of (first (is_report id) rows))
current-update id other f rows h = by (other == id) refl
  where
    apart : (r : Report) → (other == id) ≡ false → (r.id == other) ≡ true → (r.id == id) ≡ false
    apart r e k = ground arith

    by :
        (same : Bool)
        → (other == id) ≡ same
        → status_of (first (is_report id) (update_first (is_report other) f rows)) ≡ (
            if same
            then status_of (after (λ x. true) f (first (is_report id) rows))
            else status_of (first (is_report id) rows))
    by true e =
        ap (λ n. status_of (first (is_report id) (update_first (is_report n) f rows)))
          (==_sound other id e)
        ∙ ap status_of (first-update_first (is_report id) f rows (λ r. ap (λ n. n == id) (h r)))
    by false e = ap status_of (
        first-update_first_other (is_report id) (is_report other) f rows (λ r. apart r e)
          (λ r. ap (λ n. n == id) (h r)))

abbrev pub log : ℕ → ℕ → String → ℕ → JsonDict → ℕ → AuditLog
log id actor action report_id meta now = record {
  id = id;
  actor_user_id = some actor;
  action = action;
  entity_type = some "report";
  entity_id = some (Json.uuid report_id);
  meta = meta;
  created_at = now;
}
