-- ===== src/Config/Valid.antt =====
-- The configuration rows (app/services/app_config_service.py, app/seed.py): what every row satisfies,
-- and that reading the public configuration raises nothing.
use matchmaking_backend.Prelude.{
  ℕ, ◌≡◌, refl, Bool, true, false, ◌&&◌, Option, none, some, String, List, [], ◌∷◌, arith, &&_split,
  every, every-add, every-first, every-update_first, is_some,
}
use matchmaking_backend.Errors.{Result, ok, err}
use matchmaking_backend.Models.{User, ConfigValue, AppConfig}
use matchmaking_backend.World.{World, Exec, transaction}
use matchmaking_backend.Config.Keys.{is_hex_color, is_key, has_type}
use matchmaking_backend.Config.Registry.{color_keys, ConfigKeySpec, config_key_specs}
use matchmaking_backend.Config.Service.{
  ConfigCreate, ConfigUpdate, find_config, has_color, has_key, new_config, type_passes,
  color_passes, create_config, update_config, deactivate_config, update_checked, update_found,
  deactivate_found, patched, deactivated,
}
use matchmaking_backend.Config.Requests.{
  AdminRequest, Action, dispatch, handle, run, seeded, get_or_create, seed_value, seed_config,
  seed_specs, seed_configs,
}

-- What `create` and `update` check of a row.
unfoldable pub is_valid_row : AppConfig → Bool
is_valid_row c = is_key c.key && has_type c.value c.value_type && has_color c.key c.value

unfoldable pub are_valid : World → Bool
are_valid w = every is_valid_row w.configs

-- An update that passes the checks keeps a row valid.
patched-is_valid :
    (actor : ℕ) (d : ConfigUpdate) (c : AppConfig) (v : Option ConfigValue)
    → d.value ≡ v
    → is_valid_row c ≡ true
    → (type_passes c v && color_passes c v) ≡ true
    → is_valid_row (patched actor d c) ≡ true
unfolding is_valid_row
patched-is_valid actor d c none e h k = rw e h
patched-is_valid actor d c (some v) e h k = rw e (ground arith)

deactivated-is_valid :
    (actor : ℕ) (c : AppConfig) → is_valid_row c ≡ true → is_valid_row (deactivated actor c) ≡ true
unfolding is_valid_row
deactivated-is_valid actor c h = h

create_config-are_valid :
    (up : Bool) (actor : User) (d : ConfigCreate) (now : ℕ) (w : World)
    → are_valid w ≡ true
    → are_valid (create_config up actor d now w).1 ≡ true
unfolding create_config are_valid is_valid_row
create_config-are_valid up actor d now w h =
    ground (arith, every-add is_valid_row (new_config (w.uuid4 w.drawn) actor.id d) w.configs)

update_checked-are_valid :
    (up : Bool) (actor : User) (key : String) (d : ConfigUpdate) (now : ℕ) (w : World)
    (c : AppConfig)
    → (typed colored : Bool) → find_config key w.configs ≡ some c
    → are_valid w ≡ true
    → ((typed && colored) ≡ true → is_valid_row (patched actor.id d c) ≡ true)
    → are_valid (update_checked up actor key d now typed colored w).1 ≡ true
unfolding update_checked are_valid
update_checked-are_valid up actor key d now w c false colored e h k = h
update_checked-are_valid up actor key d now w c true false e h k = h
update_checked-are_valid up actor key d now w c true true e h k =
    every-update_first is_valid_row (has_key key) (patched actor.id d) w.configs c h e (k refl)

update_found-are_valid :
    (up : Bool) (actor : User) (key : String) (d : ConfigUpdate) (now : ℕ) (w : World)
    (o : Option AppConfig)
    → find_config key w.configs ≡ o
    → are_valid w ≡ true
    → are_valid (update_found up actor key d now o w).1 ≡ true
unfolding update_found are_valid
update_found-are_valid up actor key d now w none e h = h
update_found-are_valid up actor key d now w (some c) e h =
    let valid = every-first is_valid_row (has_key key) w.configs c h e in
    update_checked-are_valid up actor key d now w c (type_passes c d.value) (color_passes c d.value)
      e h (patched-is_valid actor.id d c d.value refl valid)

deactivate_found-are_valid :
    (up : Bool) (actor : User) (key : String) (now : ℕ) (w : World) (o : Option AppConfig)
    → find_config key w.configs ≡ o
    → are_valid w ≡ true
    → are_valid (deactivate_found up actor key now o w).1 ≡ true
unfolding deactivate_found are_valid
deactivate_found-are_valid up actor key now w none e h = h
deactivate_found-are_valid up actor key now w (some c) e h =
    let valid = every-first is_valid_row (has_key key) w.configs c h e in
    every-update_first is_valid_row (has_key key) (deactivated actor.id) w.configs c h e
      (deactivated-is_valid actor.id c valid)

-- A request that fails leaves the rows as they were.
transaction-are_valid :
    {A : Type 0} (m : Exec A) (w : World) (r : Result A)
    → (m w).0 ≡ r
    → are_valid w ≡ true
    → are_valid (m w).1 ≡ true
    → are_valid (transaction m w).1 ≡ true
unfolding are_valid
transaction-are_valid m w (ok a) e h k = rw (e, transaction) k
transaction-are_valid m w (err x) e h k = rw (e, transaction) h

dispatch-are_valid :
    (up : Bool) (actor : User) (now : ℕ) (a : Action) (w : World)
    → are_valid w ≡ true
    → are_valid (dispatch up actor now a w).1 ≡ true
unfolding update_config deactivate_config
dispatch-are_valid up actor now (Action.create d) w h = create_config-are_valid up actor d now w h
dispatch-are_valid up actor now (Action.update key d) w h =
    update_found-are_valid up actor key d now w (find_config key w.configs) refl h
dispatch-are_valid up actor now (Action.deactivate key) w h =
    deactivate_found-are_valid up actor key now w (find_config key w.configs) refl h

handle-are_valid :
    (r : AdminRequest) (w : World) → are_valid w ≡ true → are_valid (handle r w).1 ≡ true
unfolding handle
handle-are_valid r w h =
    transaction-are_valid (dispatch r.up r.actor r.now r.action) w
      (dispatch r.up r.actor r.now r.action w).0 refl h
      (dispatch-are_valid r.up r.actor r.now r.action w h)

pub run-are_valid :
    (rs : List AdminRequest) (w : World) → are_valid w ≡ true → are_valid (run rs w) ≡ true
unfolding run
run-are_valid [] w h = h
run-are_valid (r ∷ rs) w h = run-are_valid rs (handle r w).1 (handle-are_valid r w h)

-- Whether the default of a specification makes a valid row.
abbrev is_valid_default : ConfigKeySpec → Option ConfigValue → Bool
is_valid_default s none = true
is_valid_default s (some v) = is_key s.key && has_type v s.value_type && has_color s.key v

unfoldable is_valid_spec : ConfigKeySpec → Bool
is_valid_spec s = is_valid_default s s.default

specs_valid :
    (local_price nri_price : ℕ)
    → every is_valid_spec (config_key_specs local_price nri_price) ≡ true
unfolding config_key_specs is_valid_spec is_key has_color color_keys is_hex_color
specs_valid local_price nri_price = refl

get_or_create-are_valid :
    (s : ConfigKeySpec) (v : ConfigValue) (known : Bool) (w : World)
    → is_valid_default s (some v) ≡ true
    → are_valid w ≡ true
    → are_valid (get_or_create s v known w).1 ≡ true
unfolding are_valid is_valid_row
get_or_create-are_valid s v true w k h = h
get_or_create-are_valid s v false w k h =
    ground (arith, every-add is_valid_row (seeded (w.uuid4 w.drawn) s v) w.configs)

seed_value-are_valid :
    (s : ConfigKeySpec) (v : Option ConfigValue) (w : World)
    → is_valid_default s v ≡ true
    → are_valid w ≡ true
    → are_valid (seed_value s v w).1 ≡ true
seed_value-are_valid s none w k h = h
seed_value-are_valid s (some v) w k h =
    get_or_create-are_valid s v (is_some (find_config s.key w.configs)) w k h

seed_specs-are_valid :
    (ss : List ConfigKeySpec) (w : World)
    → every is_valid_spec ss ≡ true
    → are_valid w ≡ true
    → are_valid (seed_specs ss w) ≡ true
unfolding seed_specs seed_config is_valid_spec
seed_specs-are_valid [] w k h = h
seed_specs-are_valid (s ∷ ss) w k h =
    let (here, later) = &&_split (is_valid_default s s.default) (every is_valid_spec ss) k in
    seed_specs-are_valid ss (seed_value s s.default w).1 later
      (seed_value-are_valid s s.default w here h)

-- Where every configuration row has a key of the format, a value of its type and, under a colour
-- key, no text that is not a hex colour, seeding the registry with any two prices and then any
-- sequence of requests of administrators, whether each returns or raises, leaves it so.
pub seed_configs-run-are_valid :
    (local_price nri_price : ℕ) (rs : List AdminRequest) (w : World)
    → are_valid w ≡ true
    → are_valid (run rs (seed_configs local_price nri_price w)) ≡ true
unfolding seed_configs
seed_configs-run-are_valid local_price nri_price rs w h =
    run-are_valid rs (seed_configs local_price nri_price w) (
      seed_specs-are_valid (config_key_specs local_price nri_price) w
        (specs_valid local_price nri_price) h)
