-- ===== src/Lib.antt =====
-- A model of the backend of a matchmaking service (app/, FastAPI and SQLAlchemy), with the theorems
-- that make its core correct.
--
-- What is modelled, by file:
--
--   World      what a request can read and change: the database tables (a list of rows for each), what
--              Redis holds, and the supply of UUIDs. A service method is an action of `Exec`, from a
--              world to an answer or an error and a new world; `transaction` is the session of
--              app/db/session.py, whose changes are lost where the endpoint raised before its commit.
--              Also AuditService.record and NotificationService.create.
--   Models, Enums, Errors
--              the rows of app/db/models, the enumerations of app/db/enums.py, the errors of
--              app/api/errors.py and the integrity errors of the constraints in app/db/models.
--   Matching   swipes (app/services/swipe_service.py), matches (match_service.py), blocks
--              (block_service.py), profile shares (share_service.py) and messages (message_service.py),
--              over the queries of app/repositories/swipe_repo.py, match_repo.py, moderation_repo.py and
--              message_repo.py. Requests is a sequence of calls of the endpoints. Notifications
--              (notification_service.py) are read and counted.
--   Access     the permission registry (app/security/permissions.py), the permissions of a role in the
--              table (app/services/permission_service.py) and the guards of app/api/deps.py.
--   Accounts   users and refresh tokens (app/repositories/user_repo.py), tokens (app/security/jwt.py),
--              registration, login, passwords and one-time secrets (app/services/auth_service.py), the
--              second factor (totp_service.py), the actions of administrators
--              (admin_user_service.py) and the endpoints on them (app/api/v1/admin_admin_users.py).
--   Billing    payments (app/services/payment_service.py), subscriptions (subscription_service.py), job
--              verifications (verification_service.py) and the periodic jobs (app/workers/tasks.py).
--   Discovery  the recommendations (app/services/recommendation_service.py) over the candidates of
--              app/repositories/profile_repo.py, and the preferences (preference_service.py). Engine is
--              the scoring engine over any floats, Feed the service over any engine, Profiles what another
--              user sees (app/services/profile_service.py, app/api/v1/users.py).
--   Config     the remote configuration (app/services/app_config_service.py, app_config_keys.py,
--              app/repositories/app_config_repo.py) with its endpoints and its seeding (app/seed.py), and
--              the request limits (app/security/rate_limit.py).
--   Moderation reports (app/services/report_service.py), photos (photo_service.py) and notification
--              campaigns (notification_campaign_service.py), with the endpoints of the moderators
--              (app/api/v1/admin_moderation.py).
--   Tests      runs at concrete tables.
--
-- How the parts interact. A swipe reads users and blocks and writes swipes, matches and notifications. A
-- block ends the match. A conversation needs a match. Suspending, banning and deleting a user revokes his
-- refresh tokens. A webhook marks a payment and activates the subscription, or moves the verification,
-- that the metadata of the payment name; the jobs end both when they are due. The feed reads profiles,
-- users, blocks, swipes and matches, and keeps what it computed in Redis. A campaign reads users,
-- profiles and subscriptions and writes notifications.
--
-- How code corresponds to definitions. A definition has the name of the function it models, in the module
-- of its service; a longer method is cut into named pieces that run in the order of the source. The
-- current time is an argument, in seconds, and a method reads it once. Amounts are in hundredths. A UUID
-- is a number, in the order of UUIDs. `first` is the row that a query with a limit of one returns, in the
-- order of insertion where the query gives no order. An integrity error is a `fault`, raised where the
-- row is flushed. Audit entries leave out the address and the agent of the client.
--
-- Parameters. PyJWT, argon2, pyotp, hashlib, secrets and Python's case mapping are the record `Host`
-- (Accounts/Host), with the documented laws of PyJWT in `JwtLaws`; the payment provider, the parsing of a
-- UUID, the text of an amount and the case mapping of the webhook are the record `Gateway` (Billing/Gateway).
-- Python's floats are the record `Floats` (Discovery/Engine); the order by category and key, which is the
-- database's, and the digest of the configuration are arguments (Config/Service). Loops are structural
-- recursion on a list or on a count that the source gives, but for two: the batches of a campaign run on
-- the number of its targets, and a client that follows the pages of a feed on a number of requests;
-- their theorems show that this is enough.
--
-- Not modelled. Writing profiles and their privacy, family, astrology and analytics; object storage; the
-- queries that only list, search or join for a screen; sending mail and messages; the signature check of a
-- webhook, which is Stripe's; a Redis that does not answer, but for the secrets of
-- app/services/auth_service.py, the configuration and the request limits; a worker that stops in the middle of a campaign; two transactions that run at the same time; the
-- columns updated_at.
pub mod Prelude
pub mod Errors
pub mod Enums
pub mod Models
pub mod World
pub mod Matching
pub mod Access
pub mod Accounts
pub mod Billing
pub mod Discovery
pub mod Config
pub mod Moderation
pub mod Tests
