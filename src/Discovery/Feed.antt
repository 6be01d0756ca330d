-- ===== src/Discovery/Feed.antt =====
-- `RecommendationService` of app/services/recommendation_service.py, over any scoring engine and over
-- `discovery_base_query` of app/repositories/profile_repo.py. Redis is taken to answer.
pub mod Pages
pub mod Visible
use matchmaking_backend.Prelude.{
  ℕ, ◌+◌, Bool, true, false, ◌&&◌, ◌||◌, not, Option, none, some, String, List, [], ◌∷◌, ◌++◌, map,
  select, exists, first, ◌==◌, ltb, leb, length, take, drop, is_none, if◌then◌else◌,
}
use matchmaking_backend.Enums.{is_active_status}
use matchmaking_backend.Models.{User, Match, Date, Profile, FeedItem, Junction}
use matchmaking_backend.World.{World, Exec, pure, gets, modify, ◌>>=◌, ◌>>◌}
use matchmaking_backend.Matching.Queries.{
  swiped_user_ids, active_match_ids_for, blocked_ids, who_blocked_me,
}
use matchmaking_backend.Discovery.Preferences.{HardFilters, hard_filters, soft_preferences}
use matchmaking_backend.Discovery.Payload.{Payload, PreferencePayload, ScoringEngine, payload_of}

-- `x in ids`.
abbrev pub contains_id : ℕ → List ℕ → Bool
contains_id k [] = false
contains_id k (i ∷ is) = i == k || contains_id k is

-- The where clause of `discovery_base_query` on a user.
abbrev pub is_discoverable : User → Bool
is_discoverable u = is_active_status u.account_status && not u.is_banned && is_none u.deleted_at

-- `discovery_base_query`, without its optional arguments: a profile whose user is discoverable.
abbrev pub is_base_candidate : ℕ → World → Profile → Bool
is_base_candidate viewer_id w p =
    not (p.user_id == viewer_id) && exists (λ u. u.id == p.user_id && is_discoverable u) w.users

-- Both users of the matches with the ids.
abbrev pub both_users : List Match → List ℕ
both_users [] = []
both_users (m ∷ ms) = m.user1_id ∷ m.user2_id ∷ both_users ms

abbrev pub matched_ids : ℕ → World → List ℕ
matched_ids viewer_id w =
    both_users (select (λ m. contains_id m.id (active_match_ids_for viewer_id w)) w.matches)

-- `blocked | swiped | matched_ids`; the viewer, who is discarded from the last, is no candidate anyway.
abbrev pub excluded_ids : ℕ → World → List ℕ
excluded_ids viewer_id w =
    blocked_ids viewer_id w
    ++ (who_blocked_me viewer_id w ++ (swiped_user_ids viewer_id w ++ matched_ids viewer_id w))

-- `_candidates`.
unfoldable pub candidates : ℕ → World → List Profile
candidates viewer_id w =
    select
      (λ p.
        is_base_candidate viewer_id w p && not (contains_id p.user_id (excluded_ids viewer_id w)))
      w.profiles

-- `ProfileRepository.get_by_user`.
abbrev pub get_by_user : ℕ → World → Option Profile
get_by_user user_id w = first (λ p. p.user_id == user_id) w.profiles

-- `results.sort(key=..., reverse=True)`, which keeps the order of equal scores.
unfoldable pub insert_item : FeedItem → List FeedItem → List FeedItem
insert_item i [] = i ∷ []
insert_item i (j ∷ js) =
    let later = insert_item i js in if leb j.score i.score then i ∷ j ∷ js else j ∷ later

unfoldable pub sort_items : List FeedItem → List FeedItem
sort_items [] = []
sort_items (i ∷ is) = insert_item i (sort_items is)

abbrev pub feed_ttl_seconds : ℕ
feed_ttl_seconds = 900

-- The answer of `build_feed`; a cursor is the text of a number.
pub record FeedPage : Type 0 where
  pub items : List FeedItem
  pub next_cursor : Option ℕ
  pub has_more : Bool

abbrev unexpired_feed : ℕ → Option (List FeedItem × ℕ) → Option (List FeedItem)
unexpired_feed now none = none
unexpired_feed now (some (items, expires_at)) = if leb expires_at now then none else some items

-- `_load_cached`.
unfoldable pub load_cached : ℕ → ℕ → World → Option (List FeedItem)
load_cached viewer_id now w = unexpired_feed now (w.feeds viewer_id)

-- `_cache`.
unfoldable pub cache_feed : ℕ → List FeedItem → ℕ → Exec (Unit {0})
cache_feed viewer_id items now = modify (λ w. record w {
  feeds = λ k. if k == viewer_id then some (items, now + feed_ttl_seconds) else w.feeds k;
})

-- `int(cursor) if cursor and cursor.isdigit() else 0`.
abbrev pub start_of : Option ℕ → ℕ
start_of none = 0
start_of (some n) = n

abbrev pub page_of : List FeedItem → ℕ → ℕ → FeedPage
page_of items start limit =
    let more = ltb (start + limit) (length items) in
    record {
      items = take limit (drop start items);
      next_cursor = if more then some (start + limit) else none;
      has_more = more;
    }

module _ (engine : ScoringEngine) (today : Date) where
  abbrev pub score_one : Payload → PreferencePayload → World → Profile → FeedItem
  score_one viewer preferences w p =
      let scored = engine viewer (payload_of today p w) preferences in
      record {
        candidate_user_id = p.user_id;
        score = scored.score;
        reason_codes = scored.reason_codes;
      }

  abbrev pub ranked :
      List Profile → Profile → HardFilters → List (Junction × List String) → World → List FeedItem
  ranked cands profile pref soft w =
      sort_items
        (map (score_one (payload_of today profile w) (record { pref = pref; soft = soft }) w) cands)

  abbrev pub score_soft :
      List Profile → Profile → HardFilters → List (Junction × List String) → Exec (List FeedItem)
  score_soft cands profile pref soft = gets (ranked cands profile pref soft)

  abbrev pub score_hard : List Profile → Profile → ℕ → HardFilters → Exec (List FeedItem)
  score_hard cands profile viewer_id pref =
      soft_preferences viewer_id >>= score_soft cands profile pref

  abbrev pub score_all : List Profile → Option Profile → ℕ → Exec (List FeedItem)
  score_all cands none viewer_id = pure []
  score_all cands (some profile) viewer_id =
      hard_filters viewer_id >>= score_hard cands profile viewer_id

  -- `_compute_feed`.
  unfoldable pub compute_feed : ℕ → Exec (List FeedItem)
  compute_feed viewer_id = do
    cands ← gets (candidates viewer_id)
    profile ← gets (get_by_user viewer_id)
    score_all cands profile viewer_id

  abbrev pub cached_or_computed : Option (List FeedItem) → ℕ → ℕ → Exec (List FeedItem)
  cached_or_computed (some items) viewer_id now = pure items
  cached_or_computed none viewer_id now = do
    items ← compute_feed viewer_id
    cache_feed viewer_id items now
    pure items

  unfoldable pub build_feed : ℕ → ℕ → Option ℕ → ℕ → Exec FeedPage
  build_feed viewer_id limit cursor now = do
    cached ← gets (load_cached viewer_id now)
    items ← cached_or_computed cached viewer_id now
    pure (page_of items (start_of cursor) limit)
