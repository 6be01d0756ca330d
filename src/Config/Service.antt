-- ===== src/Config/Service.antt =====
-- `AppConfigService` of app/services/app_config_service.py over `AppConfigRepository`
-- (app/repositories/app_config_repo.py). `up` tells whether Redis answers: every access to it stands
-- in a `try` that ignores the failure.
use matchmaking_backend.Prelude.{
  given, ℕ, ◌+◌, Bool, true, false, ◌&&◌, not, Option, none, some, String, List, [], ◌∷◌, leb,
  if◌then◌else◌, str_eq, contains, first, select, update_first, add, is_some,
}
use matchmaking_backend.Errors.{Error, Code, Fault}
use matchmaking_backend.Enums.{ConfigValueType, ConfigCategory, category_value, value_type_value}
use matchmaking_backend.Models.{Json, JsonDict, User, ConfigValue, AppConfig, PublicConfig}
use matchmaking_backend.World.{
  World, Exec, pure, raise, gets, ◌>>=◌, ◌>>◌, raise_if, modify, gen_uuid, audit,
}
use matchmaking_backend.Config.Keys.{is_key, is_hex_color, has_type, public_name_for}
use matchmaking_backend.Config.Registry.{color_keys, category_group}

abbrev pub has_key : String → AppConfig → Bool
has_key key c = str_eq c.key key

-- `AppConfigRepository.get_by_key`.
abbrev pub find_config : String → List AppConfig → Option AppConfig
find_config key rows = first (has_key key) rows

-- `validate_color_value`: a value that is no text passes.
abbrev is_text_color : ConfigValue → Bool
is_text_color (ConfigValue.string s) = is_hex_color s
is_text_color _ = true

unfoldable pub has_color : String → ConfigValue → Bool
has_color key value = if contains key color_keys then is_text_color value else true

-- The rows that `list_public_active` selects.
abbrev pub is_shown : AppConfig → Bool
is_shown c = c.is_public && c.is_active

-- `d[name] = value`: a dictionary keeps the order of its keys.
unfoldable pub put {ℓ} : {A : Type ℓ} → String → A → List (String × A) → List (String × A)
put name a [] = (name, a) ∷ []
put name a ((n, b) ∷ rest) =
    let later = put name a rest in if str_eq n name then (n, a) ∷ rest else (n, b) ∷ later

abbrev pub Group : Type 0
Group = List (String × ConfigValue)

-- `grouped.setdefault(group, {})[name] = value`.
unfoldable pub put_in :
    String → String → ConfigValue → List (String × Group) → List (String × Group)
put_in group name value [] = (group, (name, value) ∷ []) ∷ []
put_in group name value ((g, d) ∷ rest) =
    let later = put_in group name value rest in
    if str_eq g group then (g, put name value d) ∷ rest else (g, d) ∷ later

-- The loop of `_group`; none where `public_name_for` raises.
unfoldable pub group_rows : List AppConfig → List (String × Group) → Option (List (String × Group))
group_rows [] grouped = some grouped
group_rows (c ∷ rows) grouped = elim (public_name_for c.key) [
  | none ↦ none
  | some name ↦ group_rows rows (put_in (category_group c.category) name c.value grouped)
]

-- `{row.key: row.value for row in rows}`.
unfoldable pub version_payload : List AppConfig → Group → Group
version_payload [] d = d
version_payload (c ∷ rows) d = version_payload rows (put c.key c.value d)

-- What Redis holds, until it expires.
abbrev pub live : ℕ → Option (PublicConfig × ℕ) → Option PublicConfig
live now none = none
live now (some (config, expires_at)) = if leb expires_at now then none else some config

-- `_cache_get`, `_cache_set` and `_invalidate_cache`; `APP_CONFIG_CACHE_TTL` is 900.
abbrev pub cache_get : Bool → ℕ → World → Option PublicConfig
cache_get up now w = if up then live now w.config_cache else none

abbrev cache_set : Bool → PublicConfig → ℕ → Exec (Unit {0})
cache_set up config now =
    modify λ w. record w { config_cache = if up then some (config, now + 900) else w.config_cache }

abbrev invalidate_cache : Bool → Exec (Unit {0})
invalidate_cache up = modify λ w. record w { config_cache = if up then none else w.config_cache }

-- `AppConfigCreate`, and `AppConfigUpdate` without its unset fields.
pub record ConfigCreate : Type 0 where
  pub key : String
  pub value : ConfigValue
  pub value_type : ConfigValueType
  pub category : ConfigCategory
  pub is_public : Bool
  pub is_active : Bool
  pub description : Option String

pub record ConfigUpdate : Type 0 where
  pub value : Option ConfigValue
  pub category : Option ConfigCategory
  pub is_public : Option Bool
  pub is_active : Option Bool
  pub description : Option (Option String)

-- Whether the value that an update gives passes the two checks.
abbrev pub type_passes : AppConfig → Option ConfigValue → Bool
type_passes c none = true
type_passes c (some v) = has_type v c.value_type

abbrev pub color_passes : AppConfig → Option ConfigValue → Bool
color_passes c none = true
color_passes c (some v) = has_color c.key v

-- The assignments of `update` and of `deactivate`.
abbrev pub patched : ℕ → ConfigUpdate → AppConfig → AppConfig
patched actor d c = record c {
  value = given c.value d.value;
  category = given c.category d.category;
  is_public = given c.is_public d.is_public;
  is_active = given c.is_active d.is_active;
  description = given c.description d.description;
  updated_by = some actor;
}

abbrev pub deactivated : ℕ → AppConfig → AppConfig
deactivated actor c = record c { is_active = false; updated_by = some actor }

abbrev set_config : String → (AppConfig → AppConfig) → Exec (Unit {0})
set_config key f = modify λ w. record w { configs = update_first (has_key key) f w.configs }

abbrev pub new_config : ℕ → ℕ → ConfigCreate → AppConfig
new_config id actor d = record {
  id = id;
  key = d.key;
  value = d.value;
  value_type = d.value_type;
  category = d.category;
  is_public = d.is_public;
  is_active = d.is_active;
  description = d.description;
  updated_by = some actor;
}

abbrev audit_config : String → ℕ → String → JsonDict → ℕ → Exec (Unit {0})
audit_config action actor key meta now =
    audit action (some actor) "app_config" (Json.text key) (("key", Json.text key) ∷ meta) now

abbrev created_meta : ConfigCreate → JsonDict
created_meta d =
    ("category", Json.text (category_value d.category))
    ∷ ("value_type", Json.text (value_type_value d.value_type))
    ∷ ("is_public", Json.boolean d.is_public)
    ∷ []

-- `AppConfigService.create`.
unfoldable pub create_config : Bool → User → ConfigCreate → ℕ → Exec (Unit {0})
create_config up actor d now = do
  raise_if (not (is_key d.key)) (Error.validation Code.invalid_config_key)
  taken ← gets λ w. is_some (find_config d.key w.configs)
  raise_if taken (Error.conflict Code.config_key_exists)
  raise_if (not (has_type d.value d.value_type)) (Error.validation Code.invalid_config_value)
  raise_if (not (has_color d.key d.value)) (Error.validation Code.invalid_color)
  id ← gen_uuid
  modify λ w. record w { configs = add (new_config id actor.id d) w.configs }
  audit_config "app_config.created" actor.id d.key (created_meta d) now
  invalidate_cache up

-- `update` behind its checks of the type and of the colour.
unfoldable pub update_checked :
    Bool → User → String → ConfigUpdate → ℕ → Bool → Bool → Exec (Unit {0})
update_checked up actor key d now false color = raise (Error.validation Code.invalid_config_value)
update_checked up actor key d now true false = raise (Error.validation Code.invalid_color)
update_checked up actor key d now true true = do
  set_config key (patched actor.id d)
  audit_config "app_config.updated" actor.id key [] now
  invalidate_cache up

-- `get_by_key` raises where there is no row; `update` and `deactivate` behind it.
unfoldable pub update_found :
    Bool → User → String → ConfigUpdate → ℕ → Option AppConfig → Exec (Unit {0})
update_found up actor key d now none = raise (Error.not_found Code.config_key_not_found)
update_found up actor key d now (some obj) =
    update_checked up actor key d now (type_passes obj d.value) (color_passes obj d.value)

unfoldable pub update_config : Bool → User → String → ConfigUpdate → ℕ → Exec (Unit {0})
update_config up actor key d now w = update_found up actor key d now (find_config key w.configs) w

unfoldable pub deactivate_found : Bool → User → String → ℕ → Option AppConfig → Exec (Unit {0})
deactivate_found up actor key now none = raise (Error.not_found Code.config_key_not_found)
deactivate_found up actor key now (some obj) = do
  set_config key (deactivated actor.id)
  audit_config "app_config.deactivated" actor.id key [] now
  invalidate_cache up

unfoldable pub deactivate_config : Bool → User → String → ℕ → Exec (Unit {0})
deactivate_config up actor key now w =
    deactivate_found up actor key now (find_config key w.configs) w

-- The database's order by category and key, and the digest of the canonical JSON text.
module _ (ordered : List AppConfig → List AppConfig) (digest : Group → String) where
  abbrev pub config_of : List AppConfig → Option (List (String × Group)) → Option PublicConfig
  config_of rows none = none
  config_of rows (some grouped) =
      some (record { groups = grouped; version = digest (version_payload rows []) })

  -- What `get_public` computes from the rows where it finds nothing in Redis.
  unfoldable pub public_config : List AppConfig → Option PublicConfig
  public_config configs =
      let rows = ordered (select is_shown configs) in config_of rows (group_rows rows [])

  abbrev pub computed : Bool → ℕ → Option PublicConfig → Exec PublicConfig
  computed up now none = raise (Error.fault Fault.index_error)
  computed up now (some config) = do cache_set up config now; pure config

  abbrev pub cached_or_computed : Bool → ℕ → Option PublicConfig → Exec PublicConfig
  cached_or_computed up now (some config) = pure config
  cached_or_computed up now none = do
    config ← gets λ w. public_config w.configs
    computed up now config

  -- `AppConfigService.get_public`.
  unfoldable pub get_public : Bool → ℕ → Exec PublicConfig
  get_public up now = do cached ← gets (cache_get up now); cached_or_computed up now cached
