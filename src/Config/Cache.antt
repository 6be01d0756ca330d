-- ===== src/Config/Cache.antt =====
-- The cache of the public configuration (`get_public` of app/services/app_config_service.py) against
-- reading it from the table every time.
pub mod Writes
use matchmaking_backend.Prelude.{
  ℕ, ◌+◌, ◌≡◌, refl, ap, ◌∙◌, sym, Bool, true, false, ◌&&◌, Option, none, some, String, List, [],
  ◌∷◌, arith, leb, if◌then◌else◌, &&_split,
}
use matchmaking_backend.Errors.{Error, Fault, Result, ok, err}
use matchmaking_backend.Models.{User, AppConfig, PublicConfig}
use matchmaking_backend.World.{World, Exec, transaction}
use matchmaking_backend.Config.Service.{
  Group, public_config, get_public, cached_or_computed, computed, cache_get, live,
}
use matchmaking_backend.Config.Requests.{AdminRequest, dispatch, handle}
use Writes.{uncached, past_cache, cache_after, dispatch-uncached, dispatch-cache}

pub data Event : Type 0 where
  write : AdminRequest → Event
  -- a request of `GET /app/config`: whether Redis answers, and the time
  read : Bool → ℕ → Event

pub data Answer : Type 0 where
  written : Result (Unit {0}) → Answer
  shown : Result PublicConfig → Answer

-- Redis answers during every write.
unfoldable pub writes_reach : List Event → Bool
writes_reach [] = true
writes_reach (Event.write r ∷ es) = r.up && writes_reach es
writes_reach (Event.read up now ∷ es) = writes_reach es

-- `transaction` behind its action.
abbrev finish : {A : Type 0} → World → Result A × World → Result A × World
finish w (r, w') = elim r [
  | ok a ↦ (ok a, w')
  | err e ↦ (
    err e,
    record w {
      redis = w'.redis;
      feeds = w'.feeds;
      config_cache = w'.config_cache;
      counters = w'.counters;
      drawn = w'.drawn;
    },
  )
]

finish-uncached :
    {A : Type 0} (w : World) (r : Result A × World)
    → finish (uncached w) (past_cache r) ≡ past_cache (finish w r)
unfolding uncached
finish-uncached w (ok a, w') = refl
finish-uncached w (err e, w') = refl

handle-uncached : (r : AdminRequest) (w : World) → handle r (uncached w) ≡ past_cache (handle r w)
unfolding handle
handle-uncached r w =
    let served = dispatch r.up r.actor r.now r.action in
    ap (finish (uncached w)) (dispatch-uncached r.up r.actor r.now r.action w)
    ∙ finish-uncached w (served w)

module _ (ordered : List AppConfig → List AppConfig) (digest : Group → String) where
  -- Reading from the table every time.
  abbrev from_table : Option PublicConfig → Result PublicConfig
  from_table none = err (Error.fault Fault.index_error)
  from_table (some config) = ok config

  -- The answers of the service.
  unfoldable pub serve : List Event → World → List Answer
  serve [] w = []
  serve (Event.write r ∷ es) w = Answer.written (handle r w).0 ∷ serve es (handle r w).1
  serve (Event.read up now ∷ es) w =
      let (answer, w') = get_public ordered digest up now w in Answer.shown answer ∷ serve es w'

  -- The answers of a service that has no cache.
  unfoldable pub serve_reference : List Event → World → List Answer
  serve_reference [] w = []
  serve_reference (Event.write r ∷ es) w =
      Answer.written (handle r w).0 ∷ serve_reference es (handle r w).1
  serve_reference (Event.read up now ∷ es) w =
      Answer.shown (from_table (public_config ordered digest w.configs)) ∷ serve_reference es w

  -- What Redis holds is what the rows give.
  abbrev pub IsFresh : Option (PublicConfig × ℕ) → List AppConfig → Type 0
  IsFresh none rows = Unit
  IsFresh (some (config, expires_at)) rows = public_config ordered digest rows ≡ some config

  finish-IsFresh :
      (w : World) (r : Result (Unit {0})) (w' : World)
      → w'.config_cache ≡ cache_after true r w.config_cache
      → IsFresh w.config_cache w.configs
      → IsFresh (finish w (r, w')).1.config_cache (finish w (r, w')).1.configs
  finish-IsFresh w (ok a) w' e h = rw e tt
  finish-IsFresh w (err x) w' e h = rw e h

  handle-IsFresh :
      (r : AdminRequest) (w : World)
      → r.up ≡ true
      → IsFresh w.config_cache w.configs
      → IsFresh (handle r w).1.config_cache (handle r w).1.configs
  unfolding handle
  handle-IsFresh r w e h =
      let (result, w') = dispatch r.up r.actor r.now r.action w in
      finish-IsFresh w result w'
        (dispatch-cache r.up r.actor r.now r.action w
          ∙ ap (λ up. cache_after up result w.config_cache) e)
        h

  -- A read answers what the rows give, and leaves them and the cache in order.
  Reads : World → Result PublicConfig × World → Type 0
  Reads w (answer, w') =
      (answer ≡ from_table (public_config ordered digest w.configs))
      × (uncached w' ≡ uncached w)
      × IsFresh w'.config_cache w'.configs

  computed-Reads :
      (up : Bool) (now : ℕ) (w : World) (o : Option PublicConfig)
      → public_config ordered digest w.configs ≡ o
      → IsFresh w.config_cache w.configs
      → Reads w (computed ordered digest up now o w)
  unfolding uncached Reads
  computed-Reads up now w none e h = (ap from_table (sym e), refl, h)
  computed-Reads true now w (some c) e h = (ap from_table (sym e), refl, e)
  computed-Reads false now w (some c) e h = (ap from_table (sym e), refl, h)

  live-IsFresh :
      (now : ℕ) (cache : Option (PublicConfig × ℕ)) (rows : List AppConfig) (c : PublicConfig)
      → live now cache ≡ some c
      → IsFresh cache rows
      → public_config ordered digest rows ≡ some c
  live-IsFresh now none rows c e h = ground arith
  live-IsFresh now (some (config, expires_at)) rows c e h = ground arith

  cache_get-IsFresh :
      (up : Bool) (now : ℕ) (w : World) (c : PublicConfig)
      → cache_get up now w ≡ some c
      → IsFresh w.config_cache w.configs
      → public_config ordered digest w.configs ≡ some c
  cache_get-IsFresh true now w c e h = live-IsFresh now w.config_cache w.configs c e h
  cache_get-IsFresh false now w c e h = ground arith

  cached-Reads :
      (up : Bool) (now : ℕ) (w : World) (cached : Option PublicConfig)
      → cache_get up now w ≡ cached
      → IsFresh w.config_cache w.configs
      → Reads w (cached_or_computed ordered digest up now cached w)
  unfolding Reads
  cached-Reads up now w none e h =
      computed-Reads up now w (public_config ordered digest w.configs) refl h
  cached-Reads up now w (some c) e h =
      (ap from_table (sym (cache_get-IsFresh up now w c e h)), refl, h)

  get_public-Reads :
      (up : Bool) (now : ℕ) (w : World)
      → IsFresh w.config_cache w.configs
      → Reads w (get_public ordered digest up now w)
  unfolding get_public
  get_public-Reads up now w h = cached-Reads up now w (cache_get up now w) refl h

  -- While Redis answers during every write, and holds at first nothing or what the rows give, any
  -- sequence of requests is answered as by a service that reads the public configuration from the
  -- table every time, whether or not Redis answers a read and whenever entries expire.
  pub serve-serve_reference :
      (es : List Event) (w : World)
      → writes_reach es ≡ true
      → IsFresh w.config_cache w.configs
      → serve es w ≡ serve_reference es (uncached w)
  unfolding serve serve_reference writes_reach Reads uncached
  serve-serve_reference [] w h fresh = refl
  serve-serve_reference (Event.write r ∷ es) w h fresh =
      let (up, later) = &&_split r.up (writes_reach es) h in
      ap (λ x. Answer.written (handle r w).0 ∷ x)
        (serve-serve_reference es (handle r w).1 later (handle-IsFresh r w up fresh))
      ∙ ap (λ x. Answer.written x.0 ∷ serve_reference es x.1) (sym (handle-uncached r w))
  serve-serve_reference (Event.read up now ∷ es) w h fresh =
      let (answer, same_rows, fresh') = get_public-Reads up now w fresh in
      let w' = (get_public ordered digest up now w).1 in
      ap (λ x. Answer.shown (get_public ordered digest up now w).0 ∷ x)
        (serve-serve_reference es w' h fresh')
      ∙ ap (λ a. Answer.shown a ∷ serve_reference es (uncached w')) answer
      ∙ ap
          (λ v.
            Answer.shown (from_table (public_config ordered digest w.configs))
            ∷ serve_reference es v)
          same_rows
