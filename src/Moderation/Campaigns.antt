-- ===== src/Moderation/Campaigns.antt =====
-- `NotificationCampaignService` of app/services/notification_campaign_service.py, and the task of
-- app/workers/tasks.py that runs it.
use matchmaking_backend.Prelude.{
  ℕ, zero, suc, ◌+◌, ◌-◌, ◌==◌, Bool, true, false, ◌&&◌, ◌||◌, Option, none, some, String, List, [],
  ◌∷◌, ◌++◌, ltb, if◌then◌else◌, str_eq, first, update_first, add, is_none, is_some, length, take,
  drop, exists,
}
use matchmaking_backend.Errors.{Error, Code, Result, ok, err}
use matchmaking_backend.Enums.{
  NotificationCampaignStatus, NotificationType, SubscriptionStatus, is_active_subscription,
}
use matchmaking_backend.Models.{
  Json, JsonDict, User, Profile, Subscription, Notification, NotificationCampaign, Audience,
}
use matchmaking_backend.World.{
  World, Exec, pure, raise, gets, ◌>>=◌, ◌>>◌, raise_if, modify, gen_uuid, audit,
}
pub mod Batches
pub mod Delivery

abbrev is_living : User → Bool
is_living u = is_none u.deleted_at

-- `User.id.in_(user_ids)`.
abbrev has_id : ℕ → List ℕ → Bool
has_id n [] = false
has_id n (m ∷ ms) = n == m || has_id n ms

-- The ids of the living users of a clause.
abbrev ids_where : (User → Bool) → List User → List ℕ
ids_where p [] = []
ids_where p (u ∷ us) = let rest = ids_where p us in if is_living u && p u then u.id ∷ rest else rest

abbrev later_than : ℕ → Option ℕ → Bool
later_than now none = false
later_than now (some t) = ltb now t

-- The join with subscriptions: a row for each of the user's active ones.
abbrev is_premium_row : ℕ → ℕ → Subscription → Bool
is_premium_row now user_id s =
    s.user_id == user_id && is_active_subscription s.status && later_than now s.expires_at

abbrev premium_rows : ℕ → ℕ → List Subscription → List ℕ
premium_rows now user_id [] = []
premium_rows now user_id (s ∷ ss) =
    let rest = premium_rows now user_id ss in
    if is_premium_row now user_id s then user_id ∷ rest else rest

abbrev premium_ids : ℕ → List Subscription → List User → List ℕ
premium_ids now subscriptions [] = []
premium_ids now subscriptions (u ∷ us) =
    let rest = premium_ids now subscriptions us in
    if is_living u then premium_rows now u.id subscriptions ++ rest else rest

-- The join with profiles, of which a user has at most one.
abbrev same_text : String → Option String → Bool
same_text s none = false
same_text s (some t) = str_eq t s

abbrev lives_in : (Profile → Option String) → String → List Profile → User → Bool
lives_in column place profiles u =
    exists (λ p. p.user_id == u.id && same_text place (column p)) profiles

-- `if not city`.
abbrev not_empty : Option String → Option String
not_empty none = none
not_empty (some s) = if str_eq s "" then none else some s

abbrev place_ids : (Profile → Option String) → Option String → World → Result (List ℕ)
place_ids column none w = err (Error.validation Code.invalid_audience)
place_ids column (some place) w = ok (ids_where (lives_in column place w.profiles) w.users)

-- `_resolve_audience`.
unfoldable pub resolve_audience : Audience → ℕ → World → Result (List ℕ)
resolve_audience (Audience.custom []) now w = err (Error.validation Code.invalid_audience)
resolve_audience (Audience.custom (n ∷ ns)) now w =
    ok (ids_where (λ u. has_id u.id (n ∷ ns)) w.users)
resolve_audience Audience.premium now w = ok (premium_ids now w.subscriptions w.users)
resolve_audience Audience.unverified now w =
    ok (ids_where (λ u. is_none u.email_verified_at && is_none u.phone_verified_at) w.users)
resolve_audience (Audience.city city) now w = place_ids (λ p. p.city) (not_empty city) w
resolve_audience (Audience.country country) now w = place_ids (λ p. p.country) (not_empty country) w
resolve_audience Audience.all now w = ok (ids_where (λ u. true) w.users)

pub record CampaignCreate : Type 0 where
  pub title : String
  pub message : String
  pub channel : String
  pub audience : Audience
  pub schedule_at : Option ℕ

abbrev audience_type : Audience → String
audience_type Audience.all = "all"
audience_type Audience.premium = "premium"
audience_type Audience.unverified = "unverified"
audience_type (Audience.city c) = "city"
audience_type (Audience.country c) = "country"
audience_type (Audience.custom ids) = "custom"

abbrev new_campaign : ℕ → ℕ → CampaignCreate → ℕ → NotificationCampaign
new_campaign id admin_id d count = record {
  id = id;
  title = d.title;
  message = d.message;
  channel = d.channel;
  audience = d.audience;
  status = NotificationCampaignStatus.queued;
  target_count = some count;
  delivered_count = 0;
  scheduled_at = d.schedule_at;
  started_at = none;
  completed_at = none;
  created_by = some admin_id;
}

abbrev time_or_null : Option ℕ → Json
time_or_null none = Json.null
time_or_null (some t) = Json.number t

-- `NotificationCampaignService.create` behind the audience; `MAX_CAMPAIGN_AUDIENCE` is 100000.
unfoldable pub create_resolved : User → CampaignCreate → ℕ → Result (List ℕ) → Exec ℕ
create_resolved admin d now (err e) = raise e
create_resolved admin d now (ok ids) = do
  raise_if (ltb 100000 (length ids)) (Error.validation Code.audience_limit_exceeded)
  raise_if (length ids == 0) (Error.validation Code.empty_audience)
  id ← gen_uuid
  modify λ w. record w { campaigns = add (new_campaign id admin.id d (length ids)) w.campaigns }
  audit "notification_campaign.created" (some admin.id) "notification_campaign" (Json.uuid id)
      (("title", Json.text d.title)
        ∷ ("channel", Json.text d.channel)
        ∷ ("audience_type", Json.text (audience_type d.audience))
        ∷ ("target_count", Json.number (length ids))
        ∷ ("scheduled_at", time_or_null d.schedule_at)
        ∷ [])
      now
  pure id

unfoldable pub create_campaign : User → CampaignCreate → ℕ → Exec ℕ
create_campaign admin d now w = create_resolved admin d now (resolve_audience d.audience now w) w

abbrev pub is_campaign : ℕ → NotificationCampaign → Bool
is_campaign id c = c.id == id

abbrev pub find_campaign : ℕ → World → Option NotificationCampaign
find_campaign id w = first (is_campaign id) w.campaigns

abbrev pub is_done : NotificationCampaignStatus → Bool
is_done NotificationCampaignStatus.done = true
is_done _ = false

abbrev pub set_campaign : ℕ → (NotificationCampaign → NotificationCampaign) → World → World
set_campaign id f w = record w { campaigns = update_first (is_campaign id) f w.campaigns }

-- `target_ids[i : i + CAMPAIGN_BATCH_SIZE]` for each `i`; as many batches as targets are enough.
unfoldable pub batches : ℕ → List ℕ → List (List ℕ)
batches zero ids = []
batches (suc n) [] = []
batches (suc n) (id ∷ ids) = take 1000 (id ∷ ids) ∷ batches n (drop 1000 (id ∷ ids))

abbrev pub campaign_notification : NotificationCampaign → ℕ → ℕ → ℕ → Notification
campaign_notification c id user_id now = record {
  id = id;
  user_id = user_id;
  type = NotificationType.system;
  title = some c.title;
  body = some c.message;
  data_ = ("campaign_id", Json.uuid c.id) ∷ ("channel", Json.text c.channel) ∷ [];
  is_read = false;
  read_at = none;
  created_at = now;
}

-- `session.add_all` and the flush.
unfoldable pub add_notifications : NotificationCampaign → ℕ → List ℕ → World → World
add_notifications c now [] w = w
add_notifications c now (user_id ∷ ids) w = add_notifications c now ids (record w {
  notifications = add (campaign_notification c (w.uuid4 w.drawn) user_id now) w.notifications;
  drawn = w.drawn + 1;
})

abbrev pub with_delivered : ℕ → NotificationCampaign → NotificationCampaign
with_delivered n c = record c { delivered_count = n }

-- The loop over the batches, each with its commit: how many were delivered.
unfoldable pub send_batches : NotificationCampaign → ℕ → List (List ℕ) → ℕ → World → ℕ × World
send_batches c now [] delivered w = (delivered, w)
send_batches c now (b ∷ bs) delivered w =
    let n = delivered + length b in
    send_batches c now bs n (set_campaign c.id (with_delivered n) (add_notifications c now b w))

abbrev pub started : ℕ → ℕ → NotificationCampaign → NotificationCampaign
started count now c = record c {
  target_count = some count;
  status = NotificationCampaignStatus.sending;
  started_at = some now;
}

abbrev pub completed : ℕ → NotificationCampaign → NotificationCampaign
completed now c = record c { status = NotificationCampaignStatus.done; completed_at = some now }

-- The status that `process` reports.
pub data Outcome : Type 0 where
  missing already_done : Outcome
  delivered : ℕ → Outcome

unfoldable pub send_all : NotificationCampaign → ℕ → List ℕ → World → ℕ × World
send_all c now ids w =
    let w₁ = set_campaign c.id (started (length ids) now) w in
    let (n, w₂) = send_batches c now (batches (length ids) ids) 0 w₁ in
    (n, set_campaign c.id (completed now) w₂)

unfoldable pub process_resolved : NotificationCampaign → ℕ → Result (List ℕ) → Exec Outcome
process_resolved c now (err e) w = (err e, w)
process_resolved c now (ok ids) w =
    let (n, w') = send_all c now ids w in (ok (Outcome.delivered n), w')

unfoldable pub process_found : ℕ → Option NotificationCampaign → Exec Outcome
process_found now none w = (ok Outcome.missing, w)
process_found now (some c) w =
    if is_done c.status
    then (ok Outcome.already_done, w)
    else process_resolved c now (resolve_audience c.audience now w) w

-- `NotificationCampaignService.process`, run to its end.
unfoldable pub process : ℕ → ℕ → Exec Outcome
process id now w = process_found now (find_campaign id w) w

-- `defer_seconds_for`, with the times in seconds.
unfoldable pub defer_seconds_for : Option ℕ → ℕ → ℕ
defer_seconds_for none now = 0
defer_seconds_for (some schedule_at) now = schedule_at - now
