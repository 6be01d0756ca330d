-- ===== src/Models/Discovery.antt =====
-- Rows of app/db/models/profile.py, photo.py, preference.py, of app_config (lookups.py) and of
-- notification_campaigns (notification.py), and what Redis holds of feeds and configuration. A column of
-- an enumeration on which no modelled code branches is the text of its value; the coordinates and the
-- income of a profile, which no modelled code reads, are left out.
use matchmaking_backend.Prelude.{ℕ, Bool, Option, String, List}
use matchmaking_backend.Enums.{
  PreferenceLevel, PhotoVerificationStatus, ProfileReviewStatus, NotificationCampaignStatus,
  ConfigValueType, ConfigCategory,
}

pub record Date : Type 0 where
  pub year : ℕ
  pub month : ℕ
  pub day : ℕ

pub record Profile : Type 0 where
  pub id : ℕ
  pub user_id : ℕ
  pub first_name : Option String
  pub last_name : Option String
  pub date_of_birth : Option Date
  pub gender : Option String
  pub bio : Option String
  pub intent : Option String
  pub marital_status : Option String
  pub height_cm : Option ℕ
  pub body_type : Option String
  pub diet : Option String
  pub drinking : Option String
  pub smoking : Option String
  pub mother_tongue : Option String
  pub religion : Option String
  pub caste : Option String
  pub education : Option String
  pub occupation : Option String
  pub job_title : Option String
  pub workplace : Option String
  pub country : Option String
  pub state : Option String
  pub city : Option String
  pub review_status : ProfileReviewStatus
  pub reviewed_by : Option ℕ
  pub reviewed_at : Option ℕ
  pub review_reason : Option String

pub record UserPrivacySettings : Type 0 where
  pub id : ℕ
  pub user_id : ℕ
  pub show_online_status : Bool
  pub show_distance : Bool
  pub show_last_seen : Bool

pub record Photo : Type 0 where
  pub id : ℕ
  pub user_id : ℕ
  pub url : String
  pub position : ℕ
  pub is_profile_photo : Bool
  pub verification_status : PhotoVerificationStatus
  pub visibility : String
  pub mime_type : Option String
  pub uploaded_at : ℕ
  pub deleted_at : Option ℕ

pub record PartnerPreference : Type 0 where
  pub id : ℕ
  pub user_id : ℕ
  pub age_min : Option ℕ
  pub age_max : Option ℕ
  pub height_min_cm : Option ℕ
  pub height_max_cm : Option ℕ
  pub preferred_marital_status : Option String
  pub preferred_physical_status : Option String
  pub preferred_family_values : Option String
  pub preferred_education : Option String
  pub preferred_employed_in : Option String
  pub religion_level : PreferenceLevel
  pub caste_level : PreferenceLevel
  pub language_level : PreferenceLevel
  pub country_level : PreferenceLevel
  pub state_level : PreferenceLevel
  pub diet_level : PreferenceLevel

-- The six junction tables of `JUNCTION_MODELS`.
pub data Junction : Type 0 where
  religions castes languages countries states diets : Junction

pub record PreferredItem : Type 0 where
  pub id : ℕ
  pub junction : Junction
  pub preference_id : ℕ
  pub value : String
  pub level : PreferenceLevel

-- The join of `user_interests` with `interests`.
pub record UserInterest : Type 0 where
  pub user_id : ℕ
  pub slug : String

-- A JSON value: `negative n` is -(n + 1), and a float, an object and an array are their texts.
pub data ConfigValue : Type 0 where
  null : ConfigValue
  boolean : Bool → ConfigValue
  integer negative : ℕ → ConfigValue
  float string object array : String → ConfigValue

pub record AppConfig : Type 0 where
  pub id : ℕ
  pub key : String
  pub value : ConfigValue
  pub value_type : ConfigValueType
  pub category : ConfigCategory
  pub is_public : Bool
  pub is_active : Bool
  pub description : Option String
  pub updated_by : Option ℕ

-- The dictionary "audience" of a campaign, by its "type".
pub data Audience : Type 0 where
  all premium unverified : Audience
  city country : Option String → Audience
  custom : List ℕ → Audience

pub record NotificationCampaign : Type 0 where
  pub id : ℕ
  pub title : String
  pub message : String
  pub channel : String
  pub audience : Audience
  pub status : NotificationCampaignStatus
  pub target_count : Option ℕ
  pub delivered_count : ℕ
  pub scheduled_at : Option ℕ
  pub started_at : Option ℕ
  pub completed_at : Option ℕ
  pub created_by : Option ℕ

-- An item of the feed; the score, which is rounded to one digit, is in tenths.
pub record FeedItem : Type 0 where
  pub candidate_user_id : ℕ
  pub score : ℕ
  pub reason_codes : List String

-- The public configuration: its groups, each with its names, and its version.
pub record PublicConfig : Type 0 where
  pub groups : List (String × List (String × ConfigValue))
  pub version : String
