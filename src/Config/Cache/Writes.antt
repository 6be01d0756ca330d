-- ===== src/Config/Cache/Writes.antt =====
-- What the endpoints of app/api/v1/admin_app_config.py do to the cache of the public configuration.
use matchmaking_backend.Prelude.{
  ℕ, ◌≡◌, refl, Bool, true, false, Option, none, some, String, arith, if◌then◌else◌,
}
use matchmaking_backend.Errors.{Result, ok, err}
use matchmaking_backend.Models.{User, AppConfig, PublicConfig}
use matchmaking_backend.World.{World}
use matchmaking_backend.Config.Service.{
  ConfigCreate, ConfigUpdate, find_config, create_config, update_config, update_checked,
  update_found, deactivate_config, deactivate_found, type_passes, color_passes,
}
use matchmaking_backend.Config.Requests.{Action, dispatch}

unfoldable pub uncached : World → World
uncached w = record w { config_cache = none }

abbrev pub past_cache : {A : Type 0} → A × World → A × World
past_cache (a, w) = (a, uncached w)

-- What a request of an administrator leaves in Redis, by its result.
abbrev pub cache_after :
    Bool → Result (Unit {0}) → Option (PublicConfig × ℕ) → Option (PublicConfig × ℕ)
cache_after up (ok a) cache = if up then none else cache
cache_after up (err e) cache = cache

-- Such a request does not read the cache.
create_config-uncached :
    (up : Bool) (actor : User) (d : ConfigCreate) (now : ℕ) (w : World)
    → create_config up actor d now (uncached w) ≡ past_cache (create_config up actor d now w)
unfolding create_config uncached
create_config-uncached up actor d now w = ground arith

update_checked-uncached :
    (up : Bool) (actor : User) (key : String) (d : ConfigUpdate) (now : ℕ) (typed colored : Bool)
    (w : World)
    → update_checked up actor key d now typed colored (uncached w)
      ≡ past_cache (update_checked up actor key d now typed colored w)
unfolding update_checked uncached
update_checked-uncached up actor key d now false colored w = refl
update_checked-uncached up actor key d now true false w = refl
update_checked-uncached true actor key d now true true w = refl
update_checked-uncached false actor key d now true true w = refl

deactivate_found-uncached :
    (up : Bool) (actor : User) (key : String) (now : ℕ) (w : World) (o : Option AppConfig)
    → deactivate_found up actor key now o (uncached w)
      ≡ past_cache (deactivate_found up actor key now o w)
unfolding deactivate_found uncached
deactivate_found-uncached up actor key now w none = refl
deactivate_found-uncached true actor key now w (some c) = refl
deactivate_found-uncached false actor key now w (some c) = refl

create_config-cache :
    (up : Bool) (actor : User) (d : ConfigCreate) (now : ℕ) (w : World)
    → (create_config up actor d now w).1.config_cache
      ≡ cache_after up (create_config up actor d now w).0 w.config_cache
unfolding create_config
create_config-cache up actor d now w = ground arith

update_checked-cache :
    (up : Bool) (actor : User) (key : String) (d : ConfigUpdate) (now : ℕ) (typed colored : Bool)
    (w : World)
    → (update_checked up actor key d now typed colored w).1.config_cache
      ≡ cache_after up (update_checked up actor key d now typed colored w).0 w.config_cache
unfolding update_checked
update_checked-cache up actor key d now false colored w = refl
update_checked-cache up actor key d now true false w = refl
update_checked-cache up actor key d now true true w = refl

deactivate_found-cache :
    (up : Bool) (actor : User) (key : String) (now : ℕ) (w : World) (o : Option AppConfig)
    → (deactivate_found up actor key now o w).1.config_cache
      ≡ cache_after up (deactivate_found up actor key now o w).0 w.config_cache
unfolding deactivate_found
deactivate_found-cache up actor key now w none = refl
deactivate_found-cache up actor key now w (some c) = refl

update_found-uncached :
    (up : Bool) (actor : User) (key : String) (d : ConfigUpdate) (now : ℕ) (w : World)
    (o : Option AppConfig)
    → update_found up actor key d now o (uncached w)
      ≡ past_cache (update_found up actor key d now o w)
unfolding update_found
update_found-uncached up actor key d now w none = refl
update_found-uncached up actor key d now w (some c) =
    update_checked-uncached up actor key d now (type_passes c d.value) (color_passes c d.value) w

update_found-cache :
    (up : Bool) (actor : User) (key : String) (d : ConfigUpdate) (now : ℕ) (w : World)
    (o : Option AppConfig)
    → (update_found up actor key d now o w).1.config_cache
      ≡ cache_after up (update_found up actor key d now o w).0 w.config_cache
unfolding update_found
update_found-cache up actor key d now w none = refl
update_found-cache up actor key d now w (some c) =
    update_checked-cache up actor key d now (type_passes c d.value) (color_passes c d.value) w

pub dispatch-uncached :
    (up : Bool) (actor : User) (now : ℕ) (a : Action) (w : World)
    → dispatch up actor now a (uncached w) ≡ past_cache (dispatch up actor now a w)
unfolding update_config deactivate_config uncached
dispatch-uncached up actor now (Action.create d) w = create_config-uncached up actor d now w
dispatch-uncached up actor now (Action.update key d) w =
    update_found-uncached up actor key d now w (find_config key w.configs)
dispatch-uncached up actor now (Action.deactivate key) w =
    deactivate_found-uncached up actor key now w (find_config key w.configs)

pub dispatch-cache :
    (up : Bool) (actor : User) (now : ℕ) (a : Action) (w : World)
    → (dispatch up actor now a w).1.config_cache
      ≡ cache_after up (dispatch up actor now a w).0 w.config_cache
unfolding update_config deactivate_config
dispatch-cache up actor now (Action.create d) w = create_config-cache up actor d now w
dispatch-cache up actor now (Action.update key d) w =
    update_found-cache up actor key d now w (find_config key w.configs)
dispatch-cache up actor now (Action.deactivate key) w =
    deactivate_found-cache up actor key now w (find_config key w.configs)
