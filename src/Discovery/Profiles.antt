-- ===== src/Discovery/Profiles.antt =====
-- Who sees what of a profile: `serialize_public` of app/services/profile_service.py, and the two endpoints
-- of app/api/v1/users.py that call it.
use matchmaking_backend.Prelude.{
  ℕ, ◌+◌, ◌-◌, ◌/◌, Bool, true, false, ◌&&◌, ◌||◌, Option, none, some, String, List, [], ◌∷◌, ltb,
  ◌==◌, if◌then◌else◌, first, add, is_none, is_some,
}
use matchmaking_backend.Errors.{Error, Code, Fault, Result, ok, err}
use matchmaking_backend.Models.{User, Date, Profile, UserPrivacySettings, Photo, Match, Block}
use matchmaking_backend.World.{
  World, Exec, pure, raise, gets, ◌>>=◌, ◌>>◌, modify, gen_uuid, get_user,
}
use matchmaking_backend.Matching.Queries.{get_block, get_active_between}
use matchmaking_backend.Discovery.Payload.{age_on}
use matchmaking_backend.Discovery.Feed.{get_by_user}
pub mod Discretion

-- The texts "5m ago", "2h ago" and "3d ago".
pub data Ago : Type 0 where
  minutes_ago hours_ago days_ago : ℕ → Ago

abbrev ago : ℕ → Ago
ago delta =
    if ltb delta 3600
    then Ago.minutes_ago (delta / 60)
    else if ltb delta 86400
    then Ago.hours_ago (delta / 3600)
    else Ago.days_ago (delta / 86400)

-- A user was not active in the future.
abbrev pub last_seen_of : UserPrivacySettings → Option ℕ → ℕ → Option Ago
last_seen_of privacy none now = none
last_seen_of privacy (some t) now = if privacy.show_last_seen then some (ago (now - t)) else none

-- `PublicProfileResponse`; a distance is in tenths of a kilometre.
pub record PublicProfile : Type 0 where
  pub id : ℕ
  pub user_id : ℕ
  pub first_name : Option String
  pub gender : Option String
  pub age : Option ℕ
  pub marital_status : Option String
  pub religion : Option String
  pub caste : Option String
  pub mother_tongue : Option String
  pub education : Option String
  pub occupation : Option String
  pub job_title : Option String
  pub city : Option String
  pub state : Option String
  pub country : Option String
  pub distance_km : Option ℕ
  pub bio : Option String
  pub intent : Option String
  pub diet : Option String
  pub drinking : Option String
  pub smoking : Option String
  pub height_cm : Option ℕ
  pub body_type : Option String
  pub profile_photo : Option String
  pub last_seen : Option Ago
  pub is_online : Bool
  pub is_verified_photo : Bool
  pub is_verified_job : Bool

-- `MatchedProfileResponse`; a response that is not one has none of the last three.
pub record MatchedProfile : Type 0 where
  pub base : PublicProfile
  pub phone_number : Option String
  pub email : Option String
  pub workplace : Option String

abbrev default_privacy : ℕ → ℕ → UserPrivacySettings
default_privacy id user_id = record {
  id = id;
  user_id = user_id;
  show_online_status = true;
  show_distance = true;
  show_last_seen = true;
}

-- `UserRepository.get_privacy` behind its lookup.
unfoldable pub found_or_default : ℕ → Option UserPrivacySettings → Exec UserPrivacySettings
found_or_default user_id (some s) = pure s
found_or_default user_id none = do
  id ← gen_uuid
  let s = default_privacy id user_id
  modify (λ w. record w { privacy_settings = add s w.privacy_settings })
  pure s

abbrev pub find_privacy : ℕ → World → Option UserPrivacySettings
find_privacy user_id w = first (λ s. s.user_id == user_id) w.privacy_settings

abbrev pub shown_if {ℓ} : {A : Type ℓ} → Bool → Option A → Option A
shown_if true o = o
shown_if false o = none

-- `is_online`, which is None, and refused by the schema, for a matched user who was never active.
abbrev pub online_of : Bool → Option ℕ → ℕ → Option Bool
online_of false last now = some false
online_of true none now = none
online_of true (some t) now = some (ltb (now - t) 120)

abbrev public_of :
    User
    → Profile
    → UserPrivacySettings
    → Date
    → Option ℕ
    → Option String
    → ℕ
    → Bool
    → PublicProfile
public_of target p privacy today distance photo_url now online = record {
  id = p.id;
  user_id = target.id;
  first_name = p.first_name;
  gender = p.gender;
  age = age_on today p.date_of_birth;
  marital_status = p.marital_status;
  religion = p.religion;
  caste = p.caste;
  mother_tongue = p.mother_tongue;
  education = p.education;
  occupation = p.occupation;
  job_title = p.job_title;
  city = p.city;
  state = p.state;
  country = p.country;
  distance_km = shown_if privacy.show_distance distance;
  bio = p.bio;
  intent = p.intent;
  diet = p.diet;
  drinking = p.drinking;
  smoking = p.smoking;
  height_cm = p.height_cm;
  body_type = p.body_type;
  profile_photo = photo_url;
  last_seen = shown_if privacy.show_online_status (last_seen_of privacy target.last_active_at now);
  is_online = online;
  is_verified_photo = false;
  is_verified_job = false;
}

abbrev pub validated :
    User
    → Profile
    → UserPrivacySettings
    → Date
    → Option ℕ
    → Option String
    → ℕ
    → Option Bool
    → Exec PublicProfile
validated target p privacy today distance photo_url now none =
    raise (Error.fault Fault.invalid_response)
validated target p privacy today distance photo_url now (some online) =
    pure (public_of target p privacy today distance photo_url now online)

-- `ProfileService.serialize_public`: `PublicProfileResponse` drops the contact details that it is given
-- for a matched viewer, as a schema of pydantic drops the names that it does not declare.
unfoldable pub serialize_with :
    User
    → Profile
    → Bool
    → Date
    → Option ℕ
    → Option String
    → ℕ
    → Option UserPrivacySettings
    → Exec PublicProfile
serialize_with target p matched today distance photo_url now found = do
  privacy ← found_or_default target.id found
  validated target p privacy today distance photo_url now
      (online_of matched target.last_active_at now)

unfoldable pub serialize_public :
    User → Profile → Bool → Date → Option ℕ → Option String → ℕ → Exec PublicProfile
serialize_public target p matched today distance photo_url now w =
    serialize_with target p matched today distance photo_url now (find_privacy target.id w) w

-- `MatchedProfileResponse(**resp.model_dump())`, and the plain response.
abbrev pub as_matched : PublicProfile → MatchedProfile
as_matched r = record { base = r; phone_number = none; email = none; workplace = none }

-- `ProfileService.get_target_user`.
abbrev pub is_gone : User → Bool
is_gone u = is_some u.deleted_at

-- `GET /users/{user_id}` behind its lookups: the target, the two blocks, the profile and the match.
unfoldable pub view_found :
    Option User
    → Bool
    → Option Profile
    → Bool
    → Date
    → Option ℕ
    → Option String
    → ℕ
    → Exec MatchedProfile
view_found none blocked p matched today distance photo_url now =
    raise (Error.not_found Code.user_not_found)
view_found (some target) true p matched today distance photo_url now =
    raise (Error.forbidden Code.blocked)
view_found (some target) false none matched today distance photo_url now =
    raise (Error.not_found Code.profile_not_found)
view_found (some target) false (some p) matched today distance photo_url now = do
  r ← serialize_public target p matched today distance photo_url now
  pure (as_matched r)

abbrev pub living : Option User → Option User
living none = none
living (some u) = if is_gone u then none else some u

abbrev pub is_blocked : ℕ → ℕ → World → Bool
is_blocked viewer_id user_id w =
    is_some (get_block viewer_id user_id w) || is_some (get_block user_id viewer_id w)

-- The endpoint; the distance, from the coordinates, and the address of the photo are arguments. The
-- profile that it makes for a viewer who has none is not committed.
unfoldable pub view_user : ℕ → ℕ → Date → Option ℕ → Option String → ℕ → Exec MatchedProfile
view_user viewer_id user_id today distance photo_url now w =
    view_found (living (get_user user_id w)) (is_blocked viewer_id user_id w)
      (get_by_user user_id w) (is_some (get_active_between viewer_id user_id w)) today distance
      photo_url now w

-- `GET /users/{user_id}/contact` behind its lookups.
unfoldable pub contact_found : Option User → Option Profile → Bool → Date → ℕ → Exec MatchedProfile
contact_found none p matched today now = raise (Error.not_found Code.user_not_found)
contact_found (some target) none matched today now = raise (Error.not_found Code.profile_not_found)
contact_found (some target) (some p) false today now = raise (Error.forbidden Code.not_matched)
contact_found (some target) (some p) true today now = do
  r ← serialize_public target p true today none none now
  pure (as_matched r)

unfoldable pub get_contact_details : ℕ → ℕ → Date → ℕ → Exec MatchedProfile
get_contact_details viewer_id user_id today now w =
    contact_found (living (get_user user_id w)) (get_by_user user_id w)
      (is_some (get_active_between viewer_id user_id w)) today now w
