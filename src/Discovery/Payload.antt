-- ===== src/Discovery/Payload.antt =====
-- What the scoring reads of a profile: `_viewer_payload` and `_viewer_payload_from_profile` of
-- app/services/recommendation_service.py, which are the same, and `_age` of profile_service.py.
use matchmaking_backend.Prelude.{
  ℕ, ◌-◌, Bool, ◌&&◌, ◌||◌, Option, none, some, String, List, map, select, ltb, ◌==◌, if◌then◌else◌,
}
use matchmaking_backend.Models.{Date, Profile}
use matchmaking_backend.World.{World}
use matchmaking_backend.Discovery.Preferences.{HardFilters}
use matchmaking_backend.Models.{Junction}

pub record Payload : Type 0 where
  pub age : Option ℕ
  pub height_cm : Option ℕ
  pub country : Option String
  pub state : Option String
  pub city : Option String
  pub religion : Option String
  pub caste : Option String
  pub mother_tongue : Option String
  pub education : Option String
  pub occupation : Option String
  pub diet : Option String
  pub smoking : Option String
  pub drinking : Option String
  pub family_values : Option String
  pub marital_status : Option String
  pub intent : Option String
  pub interests : List String

-- `(today.month, today.day) < (dob.month, dob.day)`.
abbrev before_birthday : Date → Date → Bool
before_birthday today dob =
    ltb today.month dob.month || today.month == dob.month && ltb today.day dob.day

-- The schema of the request refuses a birth in the future.
abbrev pub age_on : Date → Option Date → Option ℕ
age_on today none = none
age_on today (some dob) =
    some (today.year - dob.year - (if before_birthday today dob then 1 else 0))

-- `_interests`.
abbrev pub interests_of : ℕ → World → List String
interests_of user_id w = map (λ i. i.slug) (select (λ i. i.user_id == user_id) w.user_interests)

abbrev pub payload_of : Date → Profile → World → Payload
payload_of today p w = record {
  age = age_on today p.date_of_birth;
  height_cm = p.height_cm;
  country = p.country;
  state = p.state;
  city = p.city;
  religion = p.religion;
  caste = p.caste;
  mother_tongue = p.mother_tongue;
  education = p.education;
  occupation = p.occupation;
  diet = p.diet;
  smoking = p.smoking;
  drinking = p.drinking;
  family_values = none;
  marital_status = p.marital_status;
  intent = p.intent;
  interests = interests_of p.user_id w;
}

pub record PreferencePayload : Type 0 where
  pub pref : HardFilters
  pub soft : List (Junction × List String)

-- What the engine answers; the score, which is rounded to one digit, in tenths.
pub record Scored : Type 0 where
  pub score : ℕ
  pub reason_codes : List String

-- The protocol `ScoringEngine`.
abbrev pub ScoringEngine : Type 0
ScoringEngine = Payload → Payload → PreferencePayload → Scored
