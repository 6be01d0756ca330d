-- ===== src/Matching/Swipes/Outcome.antt =====
-- The answer of `swipe` of app/services/swipe_service.py.
use matchmaking_backend.Prelude.{
  ℕ, ◌≡◌, ◌≢◌, ◌⊎◌, true, false, ◌&&◌, not, Option-cases, inl, inr, Option, List, add, none, some,
  if◌then◌else◌, is_some, arith, exists, exists-add, first-exists, first-add, first_sound, ◌==◌,
}
use matchmaking_backend.Errors.{
  Result, ok, err, conflict, fault, uq_swipe, already_matched, uq_match, ck_match_order,
}
use matchmaking_backend.Enums.{SwipeAction, is_like}
use matchmaking_backend.Models.{User, Match}
use matchmaking_backend.World.{World, get_user}
use matchmaking_backend.Matching.Queries.{
  liked_by, is_like_of, is_pair, normalize, new_match, new_swipe, create_between, create_swipe,
  get_active_between, is_same_swipe,
}
use matchmaking_backend.Matching.Swipes.{
  SwipeResult, swipe, store_swipe, make_match, assert_can_interact, assert_not_liked, after_swipe,
}
use matchmaking_backend.Matching.Swipes.Consistent.{
  IsConsistent, IsReady, create_swipe-IsReady, liked,
}

-- The matches with a new one of the pair, where an id is given.
abbrev pub with_match : Option ℕ → ℕ → ℕ → ℕ → List Match → List Match
with_match none a b now ms = ms
with_match (some id) a b now ms = add (new_match id (normalize a b) now) ms

-- Without a match of the pair, `make_match` stores one and returns its id.
make_match_fresh :
    (a b now : ℕ) (w : World)
    → a ≢ b
    → exists (is_pair (normalize a b)) w.matches ≡ false
    → ((make_match a b now w).0 ≡ ok (some (w.uuid4 w.drawn)))
      × (is_some (get_active_between a b (make_match a b now w).1) ≡ true)
      × ((make_match a b now w).1.matches ≡ with_match (some (w.uuid4 w.drawn)) a b now w.matches)
unfolding make_match create_between
make_match_fresh a b now w ne fresh =
    let m = new_match (w.uuid4 w.drawn) (normalize a b) now in
    ground (
      arith,
      first-exists (is_pair (normalize a b)) w.matches,
      first-add (is_pair (normalize a b)) m w.matches,
    )

-- Behind the checks a match is made exactly when the swipe is a like that the other gave before.
after_swipe_outcome :
    (a b : ℕ) (action : SwipeAction) (now : ℕ) (w : World)
    → IsReady a b action w
    → ((after_swipe a b action now w).0
        ≡ ok (if is_like action && liked w.swipes b a then some (w.uuid4 w.drawn) else none))
      × ((is_like action
            && liked w.swipes b a
            && not (is_some (get_active_between a b (after_swipe a b action now w).1)))
          ≡ false)
      × ((after_swipe a b action now w).1.matches
          ≡ with_match
              (if is_like action && liked w.swipes b a then some (w.uuid4 w.drawn) else none)
              a
              b
              now
              w.matches)
unfolding after_swipe
after_swipe_outcome a b action now w r =
    ground (arith, make_match_fresh a b now w r.apart, r.no_match)

abbrev stored : ℕ → ℕ → SwipeAction → ℕ → World → World
stored a b action now w = (create_swipe a b action now w).1

stored_matches :
    (a b : ℕ) (action : SwipeAction) (now : ℕ) (w : World)
    → (stored a b action now w).matches ≡ w.matches
unfolding create_swipe
stored_matches a b action now w = ground arith

-- The new swipe is not the other's like.
liked_back_before :
    (a b : ℕ) (action : SwipeAction) (now : ℕ) (w : World)
    → a ≢ b
    → liked (stored a b action now w).swipes b a ≡ liked w.swipes b a
unfolding create_swipe
liked_back_before a b action now w ne =
    ground
      (arith, exists-add (is_like_of b a) (new_swipe (w.uuid4 w.drawn) a b action now) w.swipes)

store_swipe_clash :
    (a b : ℕ) (action : SwipeAction) (now : ℕ) (w : World)
    → exists (is_same_swipe a b action) w.swipes ≡ true
    → (store_swipe a b action now w).0 ≡ err (fault uq_swipe)
unfolding store_swipe create_swipe
store_swipe_clash a b action now w h = ground arith

-- What is answered: whether a match was made, and which refusals cannot occur.
abbrev pub Answers : ℕ → ℕ → SwipeAction → ℕ → World → Result SwipeResult × World → Type 0
Answers a b action now w (ok r, w') =
    (r.match_created ≡ (is_like action && liked w.swipes b a))
    × ((r.match_created && not (is_some (get_active_between a b w'))) ≡ false)
    × (r.match_created ≡ is_some r.match_id)
    × (w'.matches ≡ with_match r.match_id a b now w.matches)
Answers a b action now w (err e, w') =
    (e ≢ conflict already_matched) × (e ≢ fault uq_match) × (e ≢ fault ck_match_order)

store_swipe-Answers :
    (a b : ℕ) (action : SwipeAction) (now : ℕ) (w : World)
    → IsConsistent w
    → a ≢ b
    → (is_like action && is_some (liked_by a b w)) ≡ false
    → Answers a b action now w (store_swipe a b action now w)
unfolding store_swipe create_swipe
store_swipe-Answers a b action now w h ne fresh = ground (
  arith,
  after_swipe_outcome a b action now (stored a b action now w),
  create_swipe-IsReady a b action now w h ne,
  liked_back_before a b action now w ne,
  stored_matches a b action now w,
  first-exists (is_like_of a b) w.swipes,
)

-- The checks refuse, with one of their own errors, or what follows is `store_swipe`.
abbrev IsRefusal : Result SwipeResult → Type 0
IsRefusal (ok r) = ⊥
IsRefusal (err e) =
    (e ≢ conflict already_matched) × (e ≢ fault uq_match) × (e ≢ fault ck_match_order)

checks_cases :
    (u x : User) (t : ℕ) (action : SwipeAction) (now : ℕ) (w : World)
    → get_user t w ≡ some x
    → IsRefusal (swipe u t action now w).0
      ⊎ ((swipe u t action now w ≡ store_swipe u.id t action now w)
          × (u.id ≢ t)
          × ((is_like action && is_some (liked_by u.id t w)) ≡ false))
unfolding swipe assert_can_interact assert_not_liked
checks_cases u x t action now w e = ground (arith, first_sound (λ (y : User). y.id == t) w.users x)

refusal-Answers :
    (a b : ℕ) (action : SwipeAction) (now : ℕ) (w : World) (r : Result SwipeResult × World)
    → IsRefusal r.0
    → Answers a b action now w r
refusal-Answers a b action now w (ok r, w') h = absurd h
refusal-Answers a b action now w (err e, w') h = h

swipe_found-Answers :
    (u x : User) (t : ℕ) (action : SwipeAction) (now : ℕ) (w : World)
    → IsConsistent w
    → get_user t w ≡ some x
    → Answers u.id t action now w (swipe u t action now w)
swipe_found-Answers u x t action now w h e = elim (checks_cases u x t action now w e) [
  | inl refused ↦ refusal-Answers u.id t action now w (swipe u t action now w) refused
  | inr (same, ne, fresh) ↦ rw same (store_swipe-Answers u.id t action now w h ne fresh)
]

-- From consistent tables, a swipe that returns has made a match exactly when it is a LIKE or
-- SUPER_LIKE of a user who had liked the swiper: then the match of the answered id, of the two and
-- active from now, is the only one that was added, the two have an active match, and otherwise the
-- matches are as they were; a swipe that raises never raises ALREADY_MATCHED and never meets a
-- constraint of the match table.
pub swipe-Answers :
    (u : User) (t : ℕ) (action : SwipeAction) (now : ℕ) (w : World)
    → IsConsistent w
    → Answers u.id t action now w (swipe u t action now w)
unfolding swipe
swipe-Answers u t action now w h = elim (Option-cases (get_user t w)) [
  | inl e ↦ ground arith
  | inr (x, e) ↦ swipe_found-Answers u x t action now w h e
]
