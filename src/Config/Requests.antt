-- ===== src/Config/Requests.antt =====
-- The endpoints of app/api/v1/admin_app_config.py that change the configuration, and how app/seed.py
-- fills it.
use matchmaking_backend.Prelude.{
  ℕ, Bool, true, false, Option, none, some, String, List, [], ◌∷◌, add, is_some,
}
use matchmaking_backend.Models.{User, ConfigValue, AppConfig}
use matchmaking_backend.World.{World, Exec, pure, gets, ◌>>=◌, modify, gen_uuid, transaction}
use matchmaking_backend.Config.Registry.{ConfigKeySpec, config_key_specs}
use matchmaking_backend.Config.Service.{
  ConfigCreate, ConfigUpdate, find_config, create_config, update_config, deactivate_config,
}

pub data Action : Type 0 where
  create : ConfigCreate → Action
  update : String → ConfigUpdate → Action
  deactivate : String → Action

-- A request of an administrator; `up` tells whether Redis answers during it.
pub record AdminRequest : Type 0 where
  pub up : Bool
  pub actor : User
  pub now : ℕ
  pub action : Action

abbrev pub dispatch : Bool → User → ℕ → Action → Exec (Unit {0})
dispatch up actor now (Action.create d) = create_config up actor d now
dispatch up actor now (Action.update key d) = update_config up actor key d now
dispatch up actor now (Action.deactivate key) = deactivate_config up actor key now

unfoldable pub handle : AdminRequest → Exec (Unit {0})
handle r = transaction (dispatch r.up r.actor r.now r.action)

-- The world after the requests, one after another.
unfoldable pub run : List AdminRequest → World → World
run [] w = w
run (r ∷ rs) w = run rs (handle r w).1

abbrev pub seeded : ℕ → ConfigKeySpec → ConfigValue → AppConfig
seeded id s value = record {
  id = id;
  key = s.key;
  value = value;
  value_type = s.value_type;
  category = s.category;
  is_public = s.is_public;
  is_active = true;
  description = some s.description;
  updated_by = none;
}

-- `_get_or_create(session, AppConfig, lookup={"key": spec.key}, ...)`.
abbrev pub get_or_create : ConfigKeySpec → ConfigValue → Bool → Exec (Unit {0})
get_or_create s value true = pure tt
get_or_create s value false = do
  id ← gen_uuid
  modify λ w. record w { configs = add (seeded id s value) w.configs }

abbrev pub seed_value : ConfigKeySpec → Option ConfigValue → Exec (Unit {0})
seed_value s none = pure tt
seed_value s (some value) = do
  known ← gets λ w. is_some (find_config s.key w.configs)
  get_or_create s value known

unfoldable pub seed_config : ConfigKeySpec → Exec (Unit {0})
seed_config s = seed_value s s.default

unfoldable pub seed_specs : List ConfigKeySpec → World → World
seed_specs [] w = w
seed_specs (s ∷ ss) w = seed_specs ss (seed_config s w).1

-- The loop over `CONFIG_KEY_SPECS` in `seed`, with the two prices of the settings.
unfoldable pub seed_configs : ℕ → ℕ → World → World
seed_configs local_price nri_price w = seed_specs (config_key_specs local_price nri_price) w
