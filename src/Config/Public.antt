-- ===== src/Config/Public.antt =====
-- Reading the public configuration (`get_public` of app/services/app_config_service.py) from valid rows.

use Prim.Native.String.{[], ◌∷◌}
use matchmaking_backend.Prelude.{
  ℕ, ◌≡◌, refl, Bool, true, Option, none, some, String, List, arith, every, every-select, select,
  is_some, &&_split, Option-cases, inl, inr, ◌∙◌,
}
use matchmaking_backend.Errors.{is_ok}
use matchmaking_backend.Models.{AppConfig, PublicConfig}
use matchmaking_backend.World.{World}
use matchmaking_backend.Config.Keys.{
  Place, scan_key, is_key, behind_first_dot, named_opt, public_name_for,
}
use matchmaking_backend.Config.Registry.{category_group}
use matchmaking_backend.Config.Service.{
  Group, put_in, is_shown, group_rows, public_config, config_of, get_public, cached_or_computed,
  computed, cache_get,
}
use matchmaking_backend.Config.Valid.{is_valid_row, are_valid}

-- Behind a valid key's first part there is a dot.
scan_key-behind_first_dot :
    (s : String) → scan_key (some Place.first_part) s ≡ true → is_some (behind_first_dot s) ≡ true
scan_key-behind_first_dot [] h = ground arith
scan_key-behind_first_dot (c ∷ s) h = ground (arith, scan_key-behind_first_dot s)

is_key-behind_first_dot : (key : String) → is_key key ≡ true → is_some (behind_first_dot key) ≡ true
unfolding is_key
is_key-behind_first_dot [] h = ground arith
is_key-behind_first_dot (c ∷ s) h = ground (arith, scan_key-behind_first_dot s)

named_opt-is_some :
    (key : String) (o : Option String) → is_some o ≡ true → is_some (named_opt key o) ≡ true
named_opt-is_some key none h = h
named_opt-is_some key (some s) h = refl

-- A valid row has a public name.
public_name_for-is_some :
    (c : AppConfig) → is_valid_row c ≡ true → is_some (public_name_for c.key) ≡ true
unfolding public_name_for is_valid_row
public_name_for-is_some c h =
    named_opt-is_some c.key (behind_first_dot c.key) (is_key-behind_first_dot c.key (ground arith))

group_rows-is_some :
    (rows : List AppConfig) (grouped : List (String × Group))
    → every is_valid_row rows ≡ true
    → is_some (group_rows rows grouped) ≡ true
unfolding group_rows
group_rows-is_some List.[] grouped h = refl
group_rows-is_some (List.◌∷◌ c rows) grouped h =
    let (here, later) = &&_split (is_valid_row c) (every is_valid_row rows) h in
    let named = public_name_for-is_some c here in
    elim (Option-cases (public_name_for c.key)) [
      | inl e ↦ absurd (none_named e named)
      | inr (name, e) ↦
          rw (e, is_some)
            (group_rows-is_some rows (put_in (category_group c.category) name c.value grouped)
              later)
    ]
  where
    none_named : {o : Option String} → o ≡ none → is_some o ≡ true → ⊥
    none_named e h = ground arith

-- `order_by` lists the rows that it was given.
module _ (ordered : List AppConfig → List AppConfig) (digest : Group → String)
    (ordered_keeps : (p : AppConfig → Bool) (rows : List AppConfig)
      → every p (ordered rows) ≡ every p rows) where
  public_config-is_some :
      (w : World) → are_valid w ≡ true → is_some (public_config ordered digest w.configs) ≡ true
  unfolding public_config are_valid
  public_config-is_some w h =
      let rows = select is_shown w.configs in
      let valid =
        ordered_keeps is_valid_row rows ∙ every-select is_valid_row is_shown w.configs h in
      config_of-is_some (ordered rows) (group_rows (ordered rows) List.[])
        (group_rows-is_some (ordered rows) List.[] valid)
    where
      config_of-is_some :
          (rows : List AppConfig) (o : Option (List (String × Group)))
          → is_some o ≡ true
          → is_some (config_of ordered digest rows o) ≡ true
      config_of-is_some rows none e = e
      config_of-is_some rows (some g) e = refl

  computed-is_ok :
      (up : Bool) (now : ℕ) (w : World) (o : Option PublicConfig)
      → is_some o ≡ true
      → is_ok (computed ordered digest up now o w).0 ≡ true
  computed-is_ok up now w none h = h
  computed-is_ok up now w (some c) h = refl

  by_cache :
      (up : Bool) (now : ℕ) (w : World) (cached : Option PublicConfig)
      → are_valid w ≡ true
      → is_ok (cached_or_computed ordered digest up now cached w).0 ≡ true
  by_cache up now w none h =
      computed-is_ok up now w (public_config ordered digest w.configs) (public_config-is_some w h)
  by_cache up now w (some c) h = refl

  -- Where every configuration row is valid and the order of the rows lists the rows that it was
  -- given, reading the public configuration raises nothing, whether or not Redis answers.
  pub get_public-is_ok :
      (up : Bool) (now : ℕ) (w : World)
      → are_valid w ≡ true
      → is_ok (get_public ordered digest up now w).0 ≡ true
  unfolding get_public
  get_public-is_ok up now w h = by_cache up now w (cache_get up now w) h
