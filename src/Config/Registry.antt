-- ===== src/Config/Registry.antt =====
-- `CONFIG_KEY_SPECS` of app/services/app_config_keys.py, category by category, with the two prices
-- of the settings as parameters, and the tables made of it.
use matchmaking_backend.Prelude.{
  ℕ, Bool, true, false, Option, none, some, String, List, [], ◌∷◌, ◌++◌, if◌then◌else◌,
}
use matchmaking_backend.Enums.{ConfigValueType, ConfigCategory}
use matchmaking_backend.Models.{ConfigValue}
use matchmaking_backend.Config.Keys.{ends_with}

-- No specification of the registry gives `is_public`, whose default is True.
pub record ConfigKeySpec : Type 0 where
  pub key : String
  pub value_type : ConfigValueType
  pub category : ConfigCategory
  pub is_public : Bool
  pub default : Option ConfigValue
  pub description : String

abbrev spec :
    String → ConfigValueType → ConfigCategory → Option ConfigValue → String → ConfigKeySpec
spec key value_type category default description = record {
  key = key;
  value_type = value_type;
  category = category;
  is_public = true;
  default = default;
  description = description;
}

abbrev branding_specs : List ConfigKeySpec
branding_specs =
    spec "branding.app_name" ConfigValueType.string ConfigCategory.branding
      (some (ConfigValue.string "MyMatrimony")) "Application display name"
    ∷ spec "branding.tagline" ConfigValueType.string ConfigCategory.branding
        (some (ConfigValue.string "Find your perfect match")) "Application tagline"
    ∷ spec "branding.logo_url" ConfigValueType.string ConfigCategory.branding (none)
        "Light theme logo URL"
    ∷ spec "branding.dark_logo_url" ConfigValueType.string ConfigCategory.branding (none)
        "Dark theme logo URL"
    ∷ spec "branding.primary_color" ConfigValueType.string ConfigCategory.branding
        (some (ConfigValue.string "#7C3AED")) "Primary brand color (hex)"
    ∷ spec "branding.secondary_color" ConfigValueType.string ConfigCategory.branding
        (some (ConfigValue.string "#EC4899")) "Secondary brand color (hex)"
    ∷ spec "branding.background_color" ConfigValueType.string ConfigCategory.branding
        (some (ConfigValue.string "#FFFFFF")) "Background color (hex)"
    ∷ spec "branding.text_color" ConfigValueType.string ConfigCategory.branding
        (some (ConfigValue.string "#000000")) "Text color (hex)"
    ∷ spec "branding.accent_color" ConfigValueType.string ConfigCategory.branding
        (some (ConfigValue.string "#7C3AED")) "Accent color (hex)"
    ∷ []

abbrev app_specs : List ConfigKeySpec
app_specs =
    spec "app.maintenance_mode" ConfigValueType.boolean ConfigCategory.app
      (some (ConfigValue.boolean false)) "When true the app shows the maintenance screen"
    ∷ spec "app.maintenance_message" ConfigValueType.string ConfigCategory.app (none)
        "Optional maintenance message"
    ∷ []

abbrev features_specs : List ConfigKeySpec
features_specs =
    spec "features.enable_registration" ConfigValueType.boolean ConfigCategory.features
      (some (ConfigValue.boolean true)) "Show/hide registration UI"
    ∷ spec "features.enable_swiping" ConfigValueType.boolean ConfigCategory.features
        (some (ConfigValue.boolean true)) "Show/hide swipe UI"
    ∷ spec "features.enable_messaging" ConfigValueType.boolean ConfigCategory.features
        (some (ConfigValue.boolean true)) "Show/hide messaging UI"
    ∷ spec "features.enable_astrology" ConfigValueType.boolean ConfigCategory.features
        (some (ConfigValue.boolean true)) "Show/hide astrology UI"
    ∷ spec "features.enable_job_verification" ConfigValueType.boolean ConfigCategory.features
        (some (ConfigValue.boolean true)) "Show/hide job verification UI"
    ∷ spec "features.enable_family_sharing" ConfigValueType.boolean ConfigCategory.features
        (some (ConfigValue.boolean true)) "Show/hide family sharing UI"
    ∷ spec "features.enable_video_calls" ConfigValueType.boolean ConfigCategory.features
        (some (ConfigValue.boolean false)) "Show/hide video calls UI"
    ∷ spec "features.enable_premium" ConfigValueType.boolean ConfigCategory.features
        (some (ConfigValue.boolean true)) "Show/hide premium UI"
    ∷ []

abbrev limits_specs : List ConfigKeySpec
limits_specs =
    spec "limits.max_photos" ConfigValueType.integer ConfigCategory.limits
      (some (ConfigValue.integer 6)) "Maximum photo count"
    ∷ spec "limits.max_daily_swipes" ConfigValueType.integer ConfigCategory.limits
        (some (ConfigValue.integer 50)) "Maximum swipes per day"
    ∷ spec "limits.max_profile_images" ConfigValueType.integer ConfigCategory.limits
        (some (ConfigValue.integer 6)) "Maximum profile images"
    ∷ []

abbrev pricing_specs : ℕ → ℕ → List ConfigKeySpec
pricing_specs local_price nri_price =
    spec "pricing.local_job_verification" ConfigValueType.integer ConfigCategory.pricing
      (some (ConfigValue.integer local_price)) "Local job verification price"
    ∷ spec "pricing.nri_job_verification" ConfigValueType.integer ConfigCategory.pricing
        (some (ConfigValue.integer nri_price)) "NRI job verification price"
    ∷ []

abbrev versions_specs : List ConfigKeySpec
versions_specs =
    spec "app.minimum_ios_version" ConfigValueType.string ConfigCategory.versions
      (some (ConfigValue.string "1.0.0")) "Minimum supported iOS version"
    ∷ spec "app.minimum_android_version" ConfigValueType.string ConfigCategory.versions
        (some (ConfigValue.string "1.0.0")) "Minimum supported Android version"
    ∷ spec "app.latest_ios_version" ConfigValueType.string ConfigCategory.versions
        (some (ConfigValue.string "1.0.0")) "Latest iOS version"
    ∷ spec "app.latest_android_version" ConfigValueType.string ConfigCategory.versions
        (some (ConfigValue.string "1.0.0")) "Latest Android version"
    ∷ spec "app.force_update_ios" ConfigValueType.boolean ConfigCategory.versions
        (some (ConfigValue.boolean false)) "Force iOS update"
    ∷ spec "app.force_update_android" ConfigValueType.boolean ConfigCategory.versions
        (some (ConfigValue.boolean false)) "Force Android update"
    ∷ []

abbrev legal_specs : List ConfigKeySpec
legal_specs =
    spec "app.privacy_url" ConfigValueType.string ConfigCategory.legal (none) "Privacy policy URL"
    ∷ spec "app.terms_url" ConfigValueType.string ConfigCategory.legal (none) "Terms of service URL"
    ∷ spec "app.contact_url" ConfigValueType.string ConfigCategory.legal (none) "Contact page URL"
    ∷ []

abbrev support_specs : List ConfigKeySpec
support_specs =
    spec "app.support_email" ConfigValueType.string ConfigCategory.support (none)
      "Support email address"
    ∷ spec "app.support_phone" ConfigValueType.string ConfigCategory.support (none)
        "Support phone number"
    ∷ []

-- In the registry, legal and support keys come last, so the order below is that of the source.
unfoldable pub config_key_specs : ℕ → ℕ → List ConfigKeySpec
config_key_specs local_price nri_price =
    branding_specs
    ++ app_specs
    ++ features_specs
    ++ limits_specs
    ++ pricing_specs local_price nri_price
    ++ versions_specs
    ++ legal_specs
    ++ support_specs

abbrev color_keys_of : List ConfigKeySpec → List String
color_keys_of [] = []
color_keys_of (s ∷ ss) =
    let rest = color_keys_of ss in if ends_with "_color" s.key then s.key ∷ rest else rest

-- `COLOR_KEYS`; no key depends on a price.
unfoldable pub color_keys : List String
color_keys = color_keys_of (config_key_specs 0 0)

-- `CATEGORY_GROUP`, which has every category.
abbrev pub category_group : ConfigCategory → String
category_group ConfigCategory.branding = "branding"
category_group ConfigCategory.app = "app"
category_group ConfigCategory.features = "features"
category_group ConfigCategory.limits = "limits"
category_group ConfigCategory.pricing = "pricing"
category_group ConfigCategory.versions = "versions"
category_group ConfigCategory.legal = "legal"
category_group ConfigCategory.support = "support"
