-- ===== src/Config/Keys.antt =====
-- What app/services/app_config_service.py accepts as a key and a value, and `public_name_for` of
-- app/services/app_config_keys.py. Python's `$` matches at the end of a text and before a newline
-- that ends it.
use Prim.Native.Char.{code}
use Prim.Native.String.{[], ◌∷◌}
use matchmaking_backend.Prelude.{
  ℕ, zero, suc, ◌==◌, Bool, true, false, ◌&&◌, ◌||◌, Option, none, some, String, leb, if◌then◌else◌,
  str_eq, is_some,
}
use matchmaking_backend.Enums.{ConfigValueType}
use matchmaking_backend.Models.{ConfigValue}

abbrev between : ℕ → ℕ → ℕ → Bool
between lo hi n = leb lo n && leb n hi

-- `[a-z]`, `[a-z0-9_]`, `[0-9a-fA-F]`.
abbrev is_letter : ℕ → Bool
is_letter n = between 97 122 n

abbrev is_word : ℕ → Bool
is_word n = is_letter n || between 48 57 n || n == 95

abbrev is_hex_digit : ℕ → Bool
is_hex_digit n = between 48 57 n || between 97 102 n || between 65 70 n

-- `$`.
abbrev at_end : String → Bool
at_end [] = true
at_end (c ∷ []) = code c == 10
at_end _ = false

-- Where `_KEY_RE` stands: in the first part, behind a dot, in a later part.
pub data Place : Type 0 where
  first_part behind_dot later_part : Place

abbrev next_place : Place → ℕ → Option Place
next_place Place.first_part n =
    if is_word n then some Place.first_part else if n == 46 then some Place.behind_dot else none
next_place Place.behind_dot n = if is_word n then some Place.later_part else none
next_place Place.later_part n =
    if is_word n then some Place.later_part else if n == 46 then some Place.behind_dot else none

abbrev may_end : Place → Bool
may_end Place.later_part = true
may_end _ = false

-- `_KEY_RE` behind its first letter.
abbrev pub scan_key : Option Place → String → Bool
scan_key none s = false
scan_key (some p) [] = may_end p
scan_key (some p) (c ∷ s) = may_end p && at_end (c ∷ s) || scan_key (next_place p (code c)) s

-- `_KEY_RE.match(key)`.
unfoldable pub is_key : String → Bool
is_key [] = false
is_key (c ∷ s) = is_letter (code c) && scan_key (some Place.first_part) s

abbrev hex_digits : ℕ → String → Bool
hex_digits zero s = at_end s
hex_digits (suc n) [] = false
hex_digits (suc n) (c ∷ s) = is_hex_digit (code c) && hex_digits n s

-- `_HEX_COLOR_RE.match(value)`.
unfoldable pub is_hex_color : String → Bool
is_hex_color [] = false
is_hex_color (c ∷ s) = code c == 35 && (hex_digits 3 s || hex_digits 6 s)

-- `validate_value_type`.
abbrev pub has_type : ConfigValue → ConfigValueType → Bool
has_type (ConfigValue.string s) ConfigValueType.string = true
has_type (ConfigValue.integer n) ConfigValueType.integer = true
has_type (ConfigValue.negative n) ConfigValueType.integer = true
has_type (ConfigValue.integer n) ConfigValueType.float = true
has_type (ConfigValue.negative n) ConfigValueType.float = true
has_type (ConfigValue.float s) ConfigValueType.float = true
has_type (ConfigValue.boolean b) ConfigValueType.boolean = true
has_type (ConfigValue.object s) ConfigValueType.json = true
has_type (ConfigValue.array s) ConfigValueType.json = true
has_type _ _ = false

-- `key.endswith(suffix)`.
abbrev pub ends_with : String → String → Bool
ends_with suffix [] = str_eq suffix []
ends_with suffix (c ∷ s) = str_eq suffix (c ∷ s) || ends_with suffix s

-- What comes behind the first dot: `key.split(".", 1)[1]`, which raises where there is none.
abbrev pub behind_first_dot : String → Option String
behind_first_dot [] = none
behind_first_dot (c ∷ s) = let rest = behind_first_dot s in if code c == 46 then some s else rest

-- `key.removeprefix(prefix)`, none where the key has not the prefix.
abbrev without_prefix : String → String → Option String
without_prefix [] s = some s
without_prefix (c ∷ p) [] = none
without_prefix (c ∷ p) (d ∷ s) =
    let rest = without_prefix p s in if code c == code d then rest else none

abbrev or_else : String → Option String → String
or_else s none = s
or_else s (some t) = t

abbrev named : String → String → String
named key sub =
    if is_some (without_prefix "features." key)
    then or_else sub (without_prefix "enable_" sub)
    else if str_eq key "app.support_email"
    then "email"
    else if str_eq key "app.support_phone"
    then "phone"
    else sub

abbrev pub named_opt : String → Option String → Option String
named_opt key none = none
named_opt key (some sub) = some (named key sub)

-- `public_name_for`.
unfoldable pub public_name_for : String → Option String
public_name_for key = named_opt key (behind_first_dot key)
