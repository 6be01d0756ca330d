-- ===== src/Discovery/Preferences.antt =====
-- `PreferenceService` of app/services/preference_service.py.
use matchmaking_backend.Prelude.{
  ℕ, Bool, true, false, ◌&&◌, Option, none, some, String, List, [], ◌∷◌, map, add, first, exists,
  select, update, delete, ◌==◌, ltb, if◌then◌else◌, str_eq,
}
use matchmaking_backend.Errors.{Error, Fault}
use matchmaking_backend.Enums.{PreferenceLevel}
use matchmaking_backend.Models.{PartnerPreference, PreferredItem, Junction}
use matchmaking_backend.World.{World, Exec, pure, raise_if, gets, modify, gen_uuid, ◌>>=◌, ◌>>◌}

-- A new row has the defaults of its columns.
abbrev pub new_preference : ℕ → ℕ → PartnerPreference
new_preference id user_id = record {
  id = id;
  user_id = user_id;
  age_min = none;
  age_max = none;
  height_min_cm = none;
  height_max_cm = none;
  preferred_marital_status = none;
  preferred_physical_status = none;
  preferred_family_values = none;
  preferred_education = none;
  preferred_employed_in = none;
  religion_level = PreferenceLevel.no_preference;
  caste_level = PreferenceLevel.no_preference;
  language_level = PreferenceLevel.no_preference;
  country_level = PreferenceLevel.no_preference;
  state_level = PreferenceLevel.no_preference;
  diet_level = PreferenceLevel.no_preference;
}

abbrev found_or_new : ℕ → Option PartnerPreference → Exec PartnerPreference
found_or_new user_id (some p) = pure p
found_or_new user_id none = do
  id ← gen_uuid
  let p = new_preference id user_id
  modify (λ w. record w { preferences = add p w.preferences })
  pure p

-- `PreferenceService.get`.
unfoldable pub get_preference : ℕ → Exec PartnerPreference
get_preference user_id = do
  found ← gets (λ w. first (λ p. p.user_id == user_id) w.preferences)
  found_or_new user_id found

-- An entry of a list in the body of the request.
pub record Item : Type 0 where
  pub value : String
  pub level : PreferenceLevel

-- The body of the request; a field that is missing or null is none.
pub record PreferenceUpdate : Type 0 where
  pub age_min : Option ℕ
  pub age_max : Option ℕ
  pub height_min_cm : Option ℕ
  pub height_max_cm : Option ℕ
  pub preferred_marital_status : Option String
  pub preferred_physical_status : Option String
  pub preferred_family_values : Option String
  pub preferred_education : Option String
  pub preferred_employed_in : Option String
  pub religion_level : Option PreferenceLevel
  pub caste_level : Option PreferenceLevel
  pub language_level : Option PreferenceLevel
  pub country_level : Option PreferenceLevel
  pub state_level : Option PreferenceLevel
  pub diet_level : Option PreferenceLevel
  pub items : Junction → Option (List Item)

module _ {A : Type 0} where
  -- `setattr` where the value is not None.
  abbrev given : Option A → A → A
  given none old = old
  given (some new) old = new

  abbrev given_or_kept : Option A → Option A → Option A
  given_or_kept none old = old
  given_or_kept (some new) old = some new

-- The loop over the scalar fields.
abbrev pub with_scalars : PreferenceUpdate → PartnerPreference → PartnerPreference
with_scalars d p = record p {
  age_min = given_or_kept d.age_min p.age_min;
  age_max = given_or_kept d.age_max p.age_max;
  height_min_cm = given_or_kept d.height_min_cm p.height_min_cm;
  height_max_cm = given_or_kept d.height_max_cm p.height_max_cm;
  preferred_marital_status = given_or_kept d.preferred_marital_status p.preferred_marital_status;
  preferred_physical_status = given_or_kept d.preferred_physical_status p.preferred_physical_status;
  preferred_family_values = given_or_kept d.preferred_family_values p.preferred_family_values;
  preferred_education = given_or_kept d.preferred_education p.preferred_education;
  preferred_employed_in = given_or_kept d.preferred_employed_in p.preferred_employed_in;
  religion_level = given d.religion_level p.religion_level;
  caste_level = given d.caste_level p.caste_level;
  language_level = given d.language_level p.language_level;
  country_level = given d.country_level p.country_level;
  state_level = given d.state_level p.state_level;
  diet_level = given d.diet_level p.diet_level;
}

unfoldable pub junction_index : Junction → ℕ
junction_index Junction.religions = 0
junction_index Junction.castes = 1
junction_index Junction.languages = 2
junction_index Junction.countries = 3
junction_index Junction.states = 4
junction_index Junction.diets = 5

-- The rows of one junction table that belong to a preference.
abbrev pub is_item_of : Junction → ℕ → PreferredItem → Bool
is_item_of j preference_id r =
    junction_index r.junction == junction_index j && r.preference_id == preference_id

abbrev is_no_preference : PreferenceLevel → Bool
is_no_preference PreferenceLevel.no_preference = true
is_no_preference _ = false

-- One row, with the unique constraint of its table.
unfoldable pub add_item : Junction → ℕ → Item → Exec (Unit {0})
add_item j preference_id i = do
  id ← gen_uuid
  taken ←
      gets (λ w. exists (λ r. is_item_of j preference_id r && str_eq r.value i.value) w.preferred)
  raise_if taken (Error.fault Fault.uq_preferred)
  modify (λ w. record w {
    preferred =
        add
          (record {
            id = id;
            junction = j;
            preference_id = preference_id;
            value = i.value;
            level = i.level;
          })
          w.preferred;
  })

-- The loop over the items of one list.
unfoldable pub add_items : Junction → ℕ → List Item → Exec (Unit {0})
add_items j preference_id [] = pure tt
add_items j preference_id (i ∷ is) =
    let rest = add_items j preference_id is in
    if is_no_preference i.level then rest else (do add_item j preference_id i; rest)

abbrev replace_items : Junction → ℕ → Option (List Item) → Exec (Unit {0})
replace_items j preference_id none = pure tt
replace_items j preference_id (some is) = do
  modify (λ w. record w { preferred = delete (is_item_of j preference_id) w.preferred })
  add_items j preference_id is

abbrev exceeds : Option ℕ → Option ℕ → Bool
exceeds (some a) (some b) = ltb b a
exceeds _ _ = false

-- `JUNCTION_MODELS`, in its order.
abbrev pub all_junctions : List Junction
all_junctions =
    Junction.religions ∷ Junction.castes ∷ Junction.languages ∷ Junction.countries ∷ Junction.states
    ∷ Junction.diets ∷ []

-- The loop over the junction tables.
unfoldable pub replace_all : List Junction → ℕ → PreferenceUpdate → Exec (Unit {0})
replace_all [] preference_id d = pure tt
replace_all (j ∷ js) preference_id d = do
  replace_items j preference_id (d.items j)
  replace_all js preference_id d

-- The check constraints `age_range` and `height_range` of app/db/models/preference.py.
unfoldable pub update_preference : ℕ → PreferenceUpdate → Exec (Unit {0})
update_preference user_id d = do
  p ← get_preference user_id
  raise_if (exceeds (with_scalars d p).age_min (with_scalars d p).age_max)
      (Error.fault Fault.ck_age_range)
  raise_if (exceeds (with_scalars d p).height_min_cm (with_scalars d p).height_max_cm)
      (Error.fault Fault.ck_preferred_height)
  modify (λ w. record w { preferences = update (λ q. q.id == p.id) (with_scalars d) w.preferences })
  replace_all all_junctions p.id d

-- The values of one junction table.
abbrev pub values_of : Junction → ℕ → World → List String
values_of j preference_id w = map (λ r. r.value) (select (is_item_of j preference_id) w.preferred)

-- The rows of one list, as `serialize` answers them.
abbrev pub items_of : Junction → ℕ → World → List Item
items_of j preference_id w =
    map (λ r. record { value = r.value; level = r.level })
      (select (is_item_of j preference_id) w.preferred)

pub record HardFilters : Type 0 where
  pub age_min : Option ℕ
  pub age_max : Option ℕ
  pub religions : Option (List String)
  pub castes : Option (List String)
  pub countries : Option (List String)

abbrev if_required : PreferenceLevel → List String → Option (List String)
if_required PreferenceLevel.required xs = some xs
if_required _ xs = none

unfoldable pub hard_filters : ℕ → Exec HardFilters
hard_filters user_id = do
  p ← get_preference user_id
  gets (λ w. record {
    age_min = p.age_min;
    age_max = p.age_max;
    religions = if_required p.religion_level (values_of Junction.religions p.id w);
    castes = if_required p.caste_level (values_of Junction.castes p.id w);
    countries = if_required p.country_level (values_of Junction.countries p.id w);
  })

abbrev is_preferred_level : PreferenceLevel → Bool
is_preferred_level PreferenceLevel.preferred = true
is_preferred_level _ = false

unfoldable pub soft_preferences : ℕ → Exec (List (Junction × List String))
soft_preferences user_id = do
  p ← get_preference user_id
  gets (λ w.
      map
        (λ j. (
          j,
          map (λ r. r.value)
              (select (λ r. is_item_of j p.id r && is_preferred_level r.level) w.preferred),
        ))
        all_junctions)
