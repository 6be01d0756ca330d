-- ===== src/Matching/Shares.antt =====
-- `ShareRepository` and `ShareService` of app/services/share_service.py.
use matchmaking_backend.Prelude.{
  ℕ, ◌+◌, ◌-◌, Bool, true, false, not, ◌&&◌, Option, none, some, List, [], ◌==◌, ltb, is_none,
  is_some, first, select, exists, update, add, if◌then◌else◌,
}
use matchmaking_backend.Errors.{Error, Code, Fault}
use matchmaking_backend.Enums.{SharePermission}
use matchmaking_backend.Models.{Json, User, ProfileShare}
use matchmaking_backend.World.{
  World, Exec, pure, or_raise, raise_if, gets, modify, gen_uuid, audit, days, ◌>>=◌, ◌>>◌,
}

-- The columns of the constraint `uq_profile_share` of app/db/models/share.py.
abbrev pub is_share_of : ℕ → ℕ → ProfileShare → Bool
is_share_of owner shared_with s = s.owner_user_id == owner && s.shared_with_user_id == shared_with

abbrev pub is_live_share_of : ℕ → ℕ → ProfileShare → Bool
is_live_share_of owner shared_with s = is_share_of owner shared_with s && is_none s.revoked_at

-- `ShareRepository.get_pair`.
abbrev pub get_share : ℕ → ℕ → World → Option ProfileShare
get_share owner shared_with w = first (is_live_share_of owner shared_with) w.shares

-- `ShareRepository.list_for_owner`, as a set of rows.
abbrev pub shares_of_owner : ℕ → World → List ProfileShare
shares_of_owner owner w = select (λ s. s.owner_user_id == owner && is_none s.revoked_at) w.shares

-- A number of days that a client gives, which can be below zero: `negsuc n` is -(n + 1).
pub data ℤ : Type 0 where
  pos negsuc : ℕ → ℤ

-- `if expires_in_days: now + timedelta(days=expires_in_days)`. A time is in seconds since 1970, and
-- one before that is 0.
abbrev pub share_expiry : Option ℤ → ℕ → Option ℕ
share_expiry none now = none
share_expiry (some (ℤ.pos n)) now = if n == 0 then none else some (now + days n)
share_expiry (some (ℤ.negsuc n)) now = some (now - days (n + 1))

abbrev pub new_share : ℕ → ℕ → ℕ → SharePermission → Option ℕ → ℕ → ProfileShare
new_share id owner shared_with permission expires_at now = record {
  id = id;
  owner_user_id = owner;
  shared_with_user_id = shared_with;
  permission = permission;
  expires_at = expires_at;
  revoked_at = none;
  created_at = now;
}

-- The insertion, with the constraint `uq_profile_share`.
unfoldable pub insert_share : ℕ → ℕ → SharePermission → Option ℕ → ℕ → Exec ProfileShare
insert_share owner shared_with permission expires_at now = do
  id ← gen_uuid
  taken ← gets (λ w. exists (is_share_of owner shared_with) w.shares)
  raise_if taken (Error.fault Fault.uq_share)
  let s = new_share id owner shared_with permission expires_at now
  modify (λ w. record w { shares = add s w.shares })
  pure s

unfoldable pub create_share : User → ℕ → SharePermission → Option ℤ → ℕ → Exec ProfileShare
create_share owner shared_with_user_id permission expires_in_days now = do
  raise_if (owner.id == shared_with_user_id) (Error.conflict Code.self_share)
  existing ← gets (λ w. is_some (get_share owner.id shared_with_user_id w))
  raise_if existing (Error.conflict Code.already_shared)
  s ← insert_share owner.id shared_with_user_id permission (share_expiry expires_in_days now) now
  audit "share.create" (some owner.id) "share" (Json.uuid s.id) [] now
  pure s

unfoldable pub revoke_share : User → ℕ → ℕ → Exec (Unit {0})
revoke_share owner share_id now = do
  found ← gets (λ w. first (λ s. s.id == share_id) w.shares)
  s ← or_raise found (Error.not_found Code.share_not_found)
  raise_if (not (s.owner_user_id == owner.id)) (Error.not_found Code.share_not_found)
  modify (λ w. record w {
    shares = update (λ r. r.id == s.id) (λ r. record r { revoked_at = some now }) w.shares;
  })
  audit "share.revoke" (some owner.id) "share" (Json.uuid s.id) [] now

-- `not (share.expires_at and share.expires_at < now)`.
abbrev is_unexpired : Option ProfileShare → ℕ → Bool
is_unexpired none now = false
is_unexpired (some s) now = elim s.expires_at [ none ↦ true | some t ↦ not (ltb t now) ]

unfoldable pub has_active_share : ℕ → ℕ → ℕ → World → Bool
has_active_share owner_id requester_id now w = is_unexpired (get_share owner_id requester_id w) now
