-- ===== src/Tests/Discovery.antt =====
-- The feed at concrete tables, with the scoring engine over hundredths in place of floats.
use matchmaking_backend.Prelude.{
  ℕ, zero, suc, ◌+◌, ◌-◌, ◌*◌, ◌/◌, ◌≡◌, refl, arith, none, some, String, List, [], ◌∷◌, leb,
}
use matchmaking_backend.Enums.{UserRole, ProfileReviewStatus, MatchStatus}
use matchmaking_backend.Models.{Date, Profile, FeedItem}
use matchmaking_backend.World.{World, get_user}
use matchmaking_backend.Discovery.Engine.{Floats, score}
use matchmaking_backend.Discovery.Payload.{ScoringEngine}
use matchmaking_backend.Discovery.Feed.{compute_feed, load_cached}
use matchmaking_backend.Discovery.Feed.Pages.{walk, walk-page_of}
use matchmaking_backend.Discovery.Feed.Visible.{IsFeed, compute_feed-IsFeed}
use matchmaking_backend.Discovery.Profiles.{find_privacy, is_blocked, view_user}
use matchmaking_backend.Discovery.Profiles.Discretion.{IsDiscreet, is_living, view_user-IsDiscreet}
use matchmaking_backend.Tests.Fixtures.{empty_world, user_of}

abbrev quotient : ℕ → ℕ → ℕ
quotient a zero = 0
quotient a (suc b) = a * 100 / suc b

abbrev in_hundredths : Floats
in_hundredths = record {
  F = ℕ;
  hundredths = λ n. n;
  of_int = λ n. n * 100;
  plus = λ a b. a + b;
  minus = λ a b. a - b;
  times = λ a b. a * b / 100;
  over = quotient;
  at_most = leb;
  tenths = λ a. a / 10;
}

abbrev engine : ScoringEngine
engine = score in_hundredths (λ s. s)

abbrev today : Date
today = record { year = 2026; month = 8; day = 9 }

abbrev profile_of : ℕ → ℕ → String → Profile
profile_of user_id born city = record {
  id = user_id;
  user_id = user_id;
  first_name = some "Ann";
  last_name = none;
  date_of_birth = some (record { year = born; month = 9; day = 1 });
  gender = none;
  bio = none;
  intent = some "MARRIAGE";
  marital_status = some "NEVER_MARRIED";
  height_cm = some 170;
  body_type = none;
  diet = some "VEG";
  drinking = none;
  smoking = none;
  mother_tongue = some "Hindi";
  religion = some "Hindu";
  caste = none;
  education = none;
  occupation = none;
  job_title = none;
  workplace = none;
  country = some "India";
  state = some "Kerala";
  city = some city;
  review_status = ProfileReviewStatus.approved;
  reviewed_by = none;
  reviewed_at = none;
  review_reason = none;
}

abbrev ann : Profile
ann = profile_of 1 1996 "Kochi"

-- Three users with a profile, of whom the first looks at the feed.
abbrev feed_world : World
feed_world = record empty_world {
  users = user_of 1 UserRole.user ∷ user_of 2 UserRole.user ∷ user_of 3 UserRole.user ∷ [];
  profiles = ann ∷ profile_of 2 1995 "Kollam" ∷ profile_of 3 1998 "Kochi" ∷ [];
  user_interests =
      record { user_id = 1; slug = "music" } ∷ record { user_id = 3; slug = "music" } ∷ [];
}

compute_feed-IsFeed_example : IsFeed 1 3 feed_world (compute_feed engine today 1 feed_world).0
compute_feed-IsFeed_example = compute_feed-IsFeed engine today 1 3 feed_world {profile = ann} refl

abbrev item : ℕ → FeedItem
item n = record { candidate_user_id = n; score = 100 - n; reason_codes = [] }

abbrev items : List FeedItem
items = item 2 ∷ item 3 ∷ item 4 ∷ item 5 ∷ item 6 ∷ []

abbrev cached_world : World
cached_world = record empty_world { feeds = λ k. some (items, 1000) }

-- Three pages, of two, two and one item.
walk-page_of_example : walk engine today 1 2 (λ n. 500) 9 none cached_world ≡ some items
unfolding load_cached
walk-page_of_example =
    walk-page_of engine today 1 2 (λ n. 500) cached_world items (λ n. refl) (omega arith) 9
      (omega arith)

-- The first two users are matched.
abbrev matched_world : World
matched_world = record feed_world {
  matches =
      record {
        id = 40;
        user1_id = 1;
        user2_id = 2;
        status = MatchStatus.active;
        matched_at = 0;
        unmatched_at = none;
      }
      ∷ [];
}

view_user-IsDiscreet_example :
    IsDiscreet
      (is_living (get_user 2 matched_world))
      (is_blocked 1 2 matched_world)
      (find_privacy 2 matched_world)
      (view_user 1 2 today (some 30) none 100 matched_world).0
view_user-IsDiscreet_example = view_user-IsDiscreet 1 2 today (some 30) none 100 matched_world
