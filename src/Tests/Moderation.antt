-- ===== src/Tests/Moderation.antt =====
-- Reports, photos and campaigns at concrete tables.
use matchmaking_backend.Prelude.{
  ℕ, ◌+◌, ◌≡◌, ◌≤◌, refl, arith, Bool, true, false, none, some, List, [], ◌∷◌,
}
use matchmaking_backend.Errors.{ok}
use matchmaking_backend.Enums.{
  ReportStatus, UserRole, PhotoVerificationStatus, NotificationCampaignStatus,
}
use matchmaking_backend.Models.{User, Photo, NotificationCampaign, Audience}
use matchmaking_backend.World.{World}
use matchmaking_backend.Accounts.Admin.{suspend, ban, find_user}
use matchmaking_backend.Accounts.Tokens.{revoke_all_for_user}
use matchmaking_backend.Moderation.Reports.{history, create_report, create_checked, insert_report}
use matchmaking_backend.Moderation.Reports.Sanctions.{sanctions-history}
use matchmaking_backend.Moderation.Reports.Replay.{replay, current}
use matchmaking_backend.Moderation.Reports.Trail.{run-current}
use matchmaking_backend.Moderation.Photos.{PhotoUpdate}
use matchmaking_backend.Moderation.Photos.Single.{profile_photos, run-profile_photos}
use matchmaking_backend.Moderation.Campaigns.{Outcome, resolve_audience, find_campaign, process}
use matchmaking_backend.Moderation.Campaigns.Batches.{told, occurrences, delivered_of}
use matchmaking_backend.Moderation.Campaigns.Delivery.{process-delivers}
use matchmaking_backend.Tests.Fixtures.{empty_world, user_of}
use matchmaking_backend.Moderation.Reports.Requests as reports
use matchmaking_backend.Moderation.Photos as photos

abbrev ann : User
ann = user_of 1 UserRole.user

abbrev maya : User
maya = user_of 9 UserRole.moderator

abbrev users_world : World
users_world = record empty_world { users = ann ∷ user_of 2 UserRole.user ∷ maya ∷ [] }

abbrev report_requests : List (reports.Request × ℕ)
report_requests =
    (reports.Request.create ann 2 "SPAM" none, 1)
    ∷ (reports.Request.assign maya 1000 9, 2)
    ∷ (reports.Request.transition maya 1000 "RESOLVED" none, 3)
    ∷ (reports.Request.transition maya 1000 "CLOSED" none, 4)
    ∷ (reports.Request.warn maya 1000 (some "Be polite."), 5)
    ∷ (reports.Request.ban_reported maya 7 none none, 6)
    ∷ []

-- The first UUID that the tables draw is 1000.
run-current_example :
    replay none (history 1000 (reports.run report_requests users_world))
    ≡ current 1000 (reports.run report_requests users_world)
unfolding history replay current
run-current_example = run-current 1000 report_requests users_world refl refl

-- User 2 is reported.
abbrev reported_world : World
reported_world = reports.run ((reports.Request.create ann 2 "SPAM" none, 1) ∷ []) users_world

sanctions-history_example :
    (history 1000 (reports.suspend_reported_user maya 1000 none none none 5 reported_world).1
      ≡ history 1000 reported_world)
    × (current 1000 (reports.suspend_reported_user maya 1000 none none none 5 reported_world).1
        ≡ some ReportStatus.resolved)
    × (history 1000 (reports.ban_reported_user maya 1000 none none 5 reported_world).1
        ≡ history 1000 reported_world)
    × (current 1000 (reports.ban_reported_user maya 1000 none none 5 reported_world).1
        ≡ some ReportStatus.resolved)
unfolding reports.suspend_reported_user reports.ban_reported_user suspend ban find_user
    revoke_all_for_user create_report create_checked insert_report reports.run reports.handle
sanctions-history_example = sanctions-history 1000 maya 1000 none none none 5 reported_world

abbrev photo : ℕ → Bool → Photo
photo id profile = record {
  id = id;
  user_id = 1;
  url = "u/1/a.jpg";
  position = 0;
  is_profile_photo = profile;
  verification_status = PhotoVerificationStatus.pending;
  visibility = "PUBLIC";
  mime_type = none;
  uploaded_at = 0;
  deleted_at = none;
}

abbrev photo_world : World
photo_world = record users_world { photos = photo 1 true ∷ photo 2 false ∷ [] }

abbrev make_it_profile : PhotoUpdate
make_it_profile = record { position = none; is_profile_photo = some true; visibility = none }

abbrev photo_requests : List (photos.Request × ℕ)
photo_requests =
    (photos.Request.confirm ann "u/1/c.jpg" none, 1)
    ∷ (photos.Request.change ann 2 make_it_profile, 2)
    ∷ (photos.Request.change ann 1000 make_it_profile, 3)
    ∷ []

run-profile_photos_example : profile_photos 1 (photos.run photo_requests photo_world).photos ≤ 1
unfolding profile_photos
run-profile_photos_example = run-profile_photos 1 photo_requests photo_world (omega arith)

abbrev campaign : NotificationCampaign
campaign = record {
  id = 7;
  title = "News";
  message = "Hello";
  channel = "IN_APP";
  audience = Audience.custom (1 ∷ 2 ∷ 5 ∷ []);
  status = NotificationCampaignStatus.queued;
  target_count = some 2;
  delivered_count = 0;
  scheduled_at = none;
  started_at = none;
  completed_at = none;
  created_by = none;
}

abbrev campaign_world : World
campaign_world = record users_world { campaigns = campaign ∷ [] }

process-delivers_example :
    ((process 7 50 campaign_world).0 ≡ ok (Outcome.delivered 2))
    × (told 1 7 (process 7 50 campaign_world).1
        ≡ told 1 7 campaign_world + occurrences 1 (1 ∷ 2 ∷ []))
    × (delivered_of (find_campaign 7 (process 7 50 campaign_world).1) ≡ some 2)
    × (process 7 60 (process 7 50 campaign_world).1
        ≡ (ok Outcome.already_done, (process 7 50 campaign_world).1))
unfolding resolve_audience
process-delivers_example =
    process-delivers campaign 50 (1 ∷ 2 ∷ []) campaign_world 1 60 refl refl refl refl
