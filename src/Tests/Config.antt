-- ===== src/Tests/Config.antt =====
-- The configuration and the request limits at concrete tables.
use matchmaking_backend.Prelude.{ℕ, ◌≡◌, refl, arith, true, none, some, String, List, [], ◌∷◌}
use matchmaking_backend.Errors.{is_ok}
use matchmaking_backend.Enums.{UserRole, ConfigValueType, ConfigCategory}
use matchmaking_backend.Models.{User, ConfigValue, AppConfig}
use matchmaking_backend.World.{World}
use matchmaking_backend.Config.Keys.{is_key, is_hex_color}
use matchmaking_backend.Config.Registry.{color_keys, config_key_specs}
use matchmaking_backend.Config.Service.{Group, ConfigCreate, ConfigUpdate, has_color, get_public}
use matchmaking_backend.Config.Requests.{Action, AdminRequest, run, seed_configs}
use matchmaking_backend.Config.Valid.{is_valid_row, are_valid, seed_configs-run-are_valid}
use matchmaking_backend.Config.Public.{get_public-is_ok}
use matchmaking_backend.Config.Cache.{
  Event, writes_reach, serve, serve_reference, serve-serve_reference,
}
use matchmaking_backend.Config.Cache.Writes.{uncached}
use matchmaking_backend.Config.Limits.{RateLimit, parse_limit, rate_limit}
use matchmaking_backend.Config.Limits.Counters.{Attempt}
use matchmaking_backend.Config.Limits.Bounded.{min, attempts, accepted, accepted-attempts}
use matchmaking_backend.Tests.Fixtures.{empty_world, user_of}

abbrev admin : User
admin = user_of 1 UserRole.admin

abbrev tagline : AppConfig
tagline = record {
  id = 1;
  key = "branding.text_color";
  value = ConfigValue.string "#FFF";
  value_type = ConfigValueType.string;
  category = ConfigCategory.branding;
  is_public = true;
  is_active = true;
  description = none;
  updated_by = none;
}

abbrev config_world : World
config_world = record empty_world { configs = tagline ∷ [] }

abbrev recolor : ConfigUpdate
recolor = record {
  value = some (ConfigValue.string "#000000");
  category = none;
  is_public = none;
  is_active = none;
  description = none;
}

abbrev request : Action → AdminRequest
request action = record { up = true; actor = admin; now = 10; action = action }

abbrev retries : ConfigCreate
retries = record {
  key = "app.max_retries";
  value = ConfigValue.integer 3;
  value_type = ConfigValueType.integer;
  category = ConfigCategory.app;
  is_public = true;
  is_active = true;
  description = none;
}

abbrev requests : List AdminRequest
requests =
    request (Action.create retries)
    ∷ request (Action.update "branding.text_color" recolor)
    ∷ request (Action.deactivate "missing.key")
    ∷ []

seed_configs-run-are_valid_example :
    are_valid (run requests (seed_configs 500 1500 config_world)) ≡ true
unfolding are_valid is_valid_row is_key has_color color_keys config_key_specs is_hex_color
seed_configs-run-are_valid_example = seed_configs-run-are_valid 500 1500 requests config_world refl

abbrev in_order : List AppConfig → List AppConfig
in_order rows = rows

abbrev digest : Group → String
digest d = "0123456789abcdef"

get_public-is_ok_example : is_ok (get_public in_order digest true 5 config_world).0 ≡ true
unfolding are_valid is_valid_row is_key has_color color_keys config_key_specs is_hex_color
get_public-is_ok_example =
    get_public-is_ok in_order digest (λ p rows. refl) true 5 config_world refl

-- The second read is served from Redis, the third, behind a write, from the table.
abbrev events : List Event
events =
    Event.read true 1
    ∷ Event.read true 2
    ∷ Event.write (request (Action.update "branding.text_color" recolor))
    ∷ Event.read true 20
    ∷ []

serve-serve_reference_example :
    serve in_order digest events config_world
    ≡ serve_reference in_order digest events (uncached config_world)
unfolding writes_reach
serve-serve_reference_example = serve-serve_reference in_order digest events config_world refl tt

abbrev from_ann : ℕ → Attempt
from_ann now = record { bucket = "login"; client = "203.0.113.7"; now = now }

abbrev logins : List Attempt
logins =
    from_ann 1000
    ∷ from_ann 1001
    ∷ record (from_ann 1002) { client = "203.0.113.8" }
    ∷ from_ann 1003
    ∷ []

abbrev two_a_quarter : RateLimit
two_a_quarter = record { limit = 2; window_seconds = 900 }

-- Two of the three pass.
accepted-attempts_example :
    accepted "2/15m" "5/15m" "login" "203.0.113.7" two_a_quarter 900 logins empty_world
    ≡ min (attempts "2/15m" "5/15m" "login" "203.0.113.7" two_a_quarter 900 logins) 2
unfolding rate_limit parse_limit
accepted-attempts_example =
    accepted-attempts "2/15m" "5/15m" "login" "203.0.113.7" two_a_quarter 900 logins empty_world
      refl (omega arith) refl
