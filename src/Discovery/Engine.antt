-- ===== src/Discovery/Engine.antt =====
-- `DeterministicScoringEngine` of app/services/recommendation_service.py, over Python's floats and
-- `str.lower`, which are parameters.
use matchmaking_backend.Prelude.{
  ℕ, ◌+◌, ◌-◌, Bool, true, false, ◌&&◌, ◌||◌, Option, none, some, String, List, [], ◌∷◌, ◌++◌, leb,
  ltb, length, contains, is_some, if◌then◌else◌, str_eq,
}
use matchmaking_backend.Discovery.Payload.{Payload, PreferencePayload, Scored}

-- A float, its literals in hundredths, and the operations that the engine uses; `tenths x` is
-- `round(x, 1)` as a number of tenths.
pub record Floats : Type 1 where
  pub F : Type 0
  pub hundredths : ℕ → F
  pub of_int : ℕ → F
  pub plus : F → F → F
  pub minus : F → F → F
  pub times : F → F → F
  pub over : F → F → F
  pub at_most : F → F → Bool
  pub tenths : F → ℕ

pub data Factor : Type 0 where
  age height location religion caste language education occupation diet smoking drinking family :
      Factor
  interests marital intent : Factor

-- `WEIGHTS`, in hundredths.
abbrev pub weight : Factor → ℕ
weight Factor.age = 14
weight Factor.height = 4
weight Factor.location = 10
weight Factor.religion = 10
weight Factor.caste = 8
weight Factor.language = 8
weight Factor.education = 8
weight Factor.occupation = 6
weight Factor.diet = 6
weight Factor.smoking = 5
weight Factor.drinking = 5
weight Factor.family = 5
weight Factor.interests = 6
weight Factor.marital = 3
weight Factor.intent = 2

-- `_REASON_MAP`.
abbrev pub reason_code : Factor → String
reason_code Factor.age = "AGE_MATCH"
reason_code Factor.height = "HEIGHT_MATCH"
reason_code Factor.location = "LOCATION_MATCH"
reason_code Factor.religion = "RELIGION_MATCH"
reason_code Factor.caste = "CASTE_MATCH"
reason_code Factor.language = "LANGUAGE_MATCH"
reason_code Factor.education = "EDUCATION_MATCH"
reason_code Factor.occupation = "OCCUPATION_MATCH"
reason_code Factor.diet = "DIET_MATCH"
reason_code Factor.smoking = "SMOKING_MATCH"
reason_code Factor.drinking = "DRINKING_MATCH"
reason_code Factor.family = "FAMILY_VALUES_MATCH"
reason_code Factor.interests = "SHARED_INTERESTS"
reason_code Factor.marital = "MARITAL_STATUS_MATCH"
reason_code Factor.intent = "INTENT_MATCH"

-- A text that is given and not empty counts as true.
abbrev truthy : Option String → Bool
truthy none = false
truthy (some String.[]) = false
truthy (some s) = true

abbrev same : Option String → Option String → Bool
same none none = true
same (some s) (some t) = str_eq s t
same _ _ = false

-- `abs(a - b)`.
abbrev pub distance : ℕ → ℕ → ℕ
distance a b = if ltb a b then b - a else a - b

-- `_approx`.
abbrev approx : Option ℕ → Option ℕ → ℕ → Bool
approx (some a) (some b) tolerance = leb (distance a b) tolerance
approx _ _ tolerance = false

-- `lo is not None and hi is not None and lo <= c_age <= hi`.
abbrev pub in_range : Option ℕ → Option ℕ → ℕ → Bool
in_range (some lo) (some hi) n = leb lo n && leb n hi
in_range _ _ n = false

-- `set(xs)`, and the sizes of an intersection and a union.
abbrev distinct : List String → List String
distinct [] = []
distinct (x ∷ xs) = let rest = distinct xs in if contains x rest then rest else x ∷ rest

abbrev common : List String → List String → ℕ
common [] ys = 0
common (x ∷ xs) ys = let n = common xs ys in if contains x ys then n + 1 else n

-- The arguments of a call of `add`.
abbrev Entry : Type 0 → Type 0
Entry F = Factor × F × Bool

module _ (f : Floats) (lower : String → String) where
  abbrev real : ℕ → f.F
  real n = f.hundredths n

  -- `max(0.0, min(1.0, x))`.
  abbrev clamp : f.F → f.F
  clamp x =
      let y = if f.at_most (real 100) x then real 100 else x in
      if f.at_most y (real 0) then real 0 else y

  abbrev floor_zero : f.F → f.F
  floor_zero x = if f.at_most x (real 0) then real 0 else x

  abbrev age_entry : Option ℕ → Option ℕ → PreferencePayload → Entry f.F
  age_entry (some v) (some c) q =
      if in_range q.pref.age_min q.pref.age_max c then (Factor.age, real 100, true) else (
        Factor.age,
        floor_zero (f.minus (real 100) (f.over (f.of_int (distance v c)) (f.of_int 20))),
        false,
      )
  age_entry _ _ q = (Factor.age, real 50, false)

  abbrev height_entry : Payload → Payload → Entry f.F
  height_entry v c =
      if approx v.height_cm c.height_cm 5
      then (Factor.height, real 100, true)
      else if is_some c.height_cm
      then (Factor.height, real 40, false)
      else (Factor.height, real 50, false)

  abbrev location_entry : Payload → Payload → Entry f.F
  location_entry v c =
      if (same v.country c.country && same v.state c.state && same v.city c.city)
        && (truthy v.country || truthy v.state || truthy v.city)
      then (Factor.location, real 100, true)
      else if same v.country c.country && same v.state c.state && truthy v.country
      then (Factor.location, real 80, true)
      else if truthy v.country && same v.country c.country
      then (Factor.location, real 50, false)
      else (Factor.location, real 30, false)

  -- The first loop over fields, which compares in lower case.
  abbrev same_lower : Option String → Option String → Bool
  same_lower (some s) (some t) = str_eq (lower s) (lower t)
  same_lower _ _ = false

  abbrev text_entry : Factor → Option String → Option String → Entry f.F
  text_entry k v c =
      if truthy v && truthy c
      then (k, if same_lower v c then real 100 else real 0, true)
      else (k, real 50, false)

  -- The second loop.
  abbrev choice_entry : Factor → Bool → Option String → Option String → Entry f.F
  choice_entry k reason v c =
      if truthy v && truthy c
      then (k, if same v c then real 100 else real 0, reason)
      else (k, real 50, false)

  abbrev at_least_one : ℕ → ℕ
  at_least_one n = if leb n 1 then 1 else n

  abbrev interests_of_both : List String → List String → Entry f.F
  interests_of_both [] cs = (Factor.interests, real 50, false)
  interests_of_both (v ∷ vs) [] = (Factor.interests, real 50, false)
  interests_of_both (v ∷ vs) (c ∷ cs) = (
    Factor.interests,
    f.over (f.of_int (common (v ∷ vs) (c ∷ cs)))
        (f.of_int (at_least_one (length (distinct (v ∷ vs ++ c ∷ cs))))),
    true,
  )

  -- The calls of `add`, in order.
  abbrev pub entries : Payload → Payload → PreferencePayload → List (Entry f.F)
  entries v c q =
      age_entry v.age c.age q
      ∷ height_entry v c
      ∷ location_entry v c
      ∷ text_entry Factor.religion v.religion c.religion
      ∷ text_entry Factor.caste v.caste c.caste
      ∷ text_entry Factor.language v.mother_tongue c.mother_tongue
      ∷ text_entry Factor.education v.education c.education
      ∷ text_entry Factor.occupation v.occupation c.occupation
      ∷ choice_entry Factor.diet true v.diet c.diet
      ∷ choice_entry Factor.smoking false v.smoking c.smoking
      ∷ choice_entry Factor.drinking false v.drinking c.drinking
      ∷ choice_entry Factor.family false v.family_values c.family_values
      ∷ choice_entry Factor.marital true v.marital_status c.marital_status
      ∷ choice_entry Factor.intent true v.intent c.intent
      ∷ interests_of_both (distinct v.interests) (distinct c.interests)
      ∷ []

  -- `total`, and `codes`, after the calls.
  unfoldable pub total_of : f.F → List (Entry f.F) → f.F
  total_of total [] = total
  total_of total ((k, x, reason) ∷ es) =
      total_of (f.plus total (f.times (real (weight k)) (clamp x))) es

  unfoldable pub codes_of : List (Entry f.F) → List String
  codes_of [] = []
  codes_of ((k, x, reason) ∷ es) =
      let rest = codes_of es in
      if reason && f.at_most (real 70) x then reason_code k ∷ rest else rest

  unfoldable pub score : Payload → Payload → PreferencePayload → Scored
  score v c q = record {
    score = f.tenths (f.times (total_of (real 0) (entries v c q)) (f.of_int 100));
    reason_codes = codes_of (entries v c q);
  }
