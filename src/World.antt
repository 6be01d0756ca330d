-- ===== src/World.antt =====
-- What a request can read and change: the tables, Redis, and the supply of fresh UUIDs. A service
-- method is an action of `Exec`; what it wrote before it raises stays in its session, and the
-- endpoint commits only after it has returned (`transaction`).
use matchmaking_backend.Prelude.{
  ℕ, ◌+◌, ◌*◌, Bool, true, false, Option, none, some, List, [], String, add, ◌==◌, first,
}
use matchmaking_backend.Errors.{Error, Result, ok, err}
use matchmaking_backend.Enums.{NotificationType}
use matchmaking_backend.Models.{
  Json, JsonDict, User, RefreshTokenRecord, RolePermission, UserTotpSecret, RecoveryCode, AuditLog,
  Report, Swipe, Match, Block, ProfileShare, Conversation, ConversationParticipant, Message,
  Notification, SubscriptionPlan, Subscription, Payment, JobVerification, Profile,
  UserPrivacySettings, Photo, PartnerPreference, PreferredItem, UserInterest, AppConfig,
  NotificationCampaign, FeedItem, PublicConfig,
}

-- The keys that the services use in Redis, by their prefix.
pub data RedisKey : Type 0 where
  reset email_verify otp : String → RedisKey

pub record World : Type 0 where
  pub users : List User
  pub refresh_tokens : List RefreshTokenRecord
  pub role_permissions : List RolePermission
  pub totp_secrets : List UserTotpSecret
  pub recovery_codes : List RecoveryCode
  pub audit_logs : List AuditLog
  pub reports : List Report
  pub swipes : List Swipe
  pub matches : List Match
  pub blocks : List Block
  pub shares : List ProfileShare
  pub conversations : List Conversation
  pub participants : List ConversationParticipant
  pub messages : List Message
  pub notifications : List Notification
  pub plans : List SubscriptionPlan
  pub subscriptions : List Subscription
  pub payments : List Payment
  pub verifications : List JobVerification
  pub profiles : List Profile
  pub privacy_settings : List UserPrivacySettings
  pub photos : List Photo
  pub preferences : List PartnerPreference
  pub preferred : List PreferredItem
  pub user_interests : List UserInterest
  pub configs : List AppConfig
  pub campaigns : List NotificationCampaign
  -- what Redis holds under a key, until it expires
  pub redis : RedisKey → Option (Json × ℕ)
  -- the same under "recs:" and a user's id, under "app_config:public", and under "rl:", a bucket, a
  -- client and the start of a window
  pub feeds : ℕ → Option (List FeedItem × ℕ)
  pub config_cache : Option (PublicConfig × ℕ)
  pub counters : String → String → ℕ → Option (ℕ × ℕ)
  -- the answers of `uuid.uuid4`, and how many have been drawn
  pub uuid4 : ℕ → ℕ
  pub drawn : ℕ

abbrev pub Exec : Type 0 → Type 0
Exec A = World → Result A × World

module _ {A : Type 0} where
  abbrev pub pure : A → Exec A
  pure a w = (ok a, w)

  abbrev pub raise : Error → Exec A
  raise e w = (err e, w)

  abbrev pub gets : (World → A) → Exec A
  gets f w = (ok (f w), w)

  -- `if x is None: raise ...`
  abbrev pub or_raise : Option A → Error → Exec A
  or_raise none e w = (err e, w)
  or_raise (some a) e w = (ok a, w)

  -- `get_session` closes a session that was not committed, which rolls it back. Redis and the
  -- UUIDs drawn take no part in the transaction.
  abbrev pub transaction : Exec A → Exec A
  transaction m w =
      let (r, w') = m w in
      elim r [
        | ok a ↦ (ok a, w')
        | err e ↦ (
          err e,
          record w {
            redis = w'.redis;
            feeds = w'.feeds;
            config_cache = w'.config_cache;
            counters = w'.counters;
            drawn = w'.drawn;
          },
        )
      ]

infixl 5 ◌>>=◌ ◌>>◌
abbrev pub ◌>>=◌ : {A B : Type 0} → Exec A → (A → Exec B) → Exec B
◌>>=◌ m f w = let (r, w') = m w in elim r [ ok a ↦ f a w' | err e ↦ (err e, w') ]

abbrev pub ◌>>◌ : {A B : Type 0} → Exec A → Exec B → Exec B
m >> k = m >>= λ _. k

abbrev pub raise_if : Bool → Error → Exec (Unit {0})
raise_if true e w = (err e, w)
raise_if false e w = (ok tt, w)

abbrev pub modify : (World → World) → Exec (Unit {0})
modify f w = (ok tt, f w)

-- `gen_uuid`, the default of every `id` column.
abbrev pub gen_uuid : Exec ℕ
gen_uuid w = (ok (w.uuid4 w.drawn), record w { drawn = w.drawn + 1 })

abbrev pub get_user : ℕ → World → Option User
get_user id w = first (λ u. u.id == id) w.users

-- `AuditService.record`: the row is flushed at once, and a log entry has no constraint to violate.
abbrev pub audit : String → Option ℕ → String → Json → JsonDict → ℕ → Exec (Unit {0})
audit action actor entity_type entity_id meta now = do
  id ← gen_uuid
  modify λ w. record w {
    audit_logs =
        add
          (record {
            id = id;
            actor_user_id = actor;
            action = action;
            entity_type = some entity_type;
            entity_id = some entity_id;
            meta = meta;
            created_at = now;
          })
          w.audit_logs;
  }

-- `NotificationService.create`.
abbrev pub notify : ℕ → NotificationType → String → String → ℕ → Exec (Unit {0})
notify user_id type title body now = do
  id ← gen_uuid
  modify λ w. record w {
    notifications =
        add
          (record {
            id = id;
            user_id = user_id;
            type = type;
            title = some title;
            body = some body;
            data_ = [];
            is_read = false;
            read_at = none;
            created_at = now;
          })
          w.notifications;
  }

-- Times are in seconds.
abbrev pub days : ℕ → ℕ
days n = n * 86400

abbrev pub minutes : ℕ → ℕ
minutes n = n * 60
