-- ===== src/Matching/Swipes/Consistent.antt =====
-- The matches against the likes under `swipe` of app/services/swipe_service.py.

use matchmaking_backend.Prelude.{
  ℕ, ◌<◌, ◌≡◌, ◌≢◌, refl, Bool, true, false, some, ◌&&◌, Option-cases, inl, inr, is_some,
  first_sound, ◌==◌, ◌||◌, List, [], ◌∷◌, arith, exists, exists-add, add, first-exists,
}
use matchmaking_backend.Enums.{SwipeAction, is_like}
use matchmaking_backend.Models.{User, Swipe, Match}
use matchmaking_backend.World.{World, get_user}
use matchmaking_backend.Matching.Queries.{
  new_swipe, is_same_swipe, liked_by, is_like_of, is_pair, normalize, new_match, create_between,
  create_swipe,
}
use matchmaking_backend.Matching.Swipes.{
  store_swipe, swipe, make_match, assert_can_interact, assert_not_liked, after_swipe,
}

abbrev pub liked : List Swipe → ℕ → ℕ → Bool
liked swipes a b = exists (is_like_of a b) swipes

-- Every match is of an ordered pair that no other match has, and each of the two likes the other.
abbrev pub Consistent : List Swipe → List Match → Type 0
Consistent swipes [] = Unit {0}
Consistent swipes (m ∷ ms) =
    (m.user1_id < m.user2_id)
    × (exists (is_pair (m.user1_id, m.user2_id)) ms ≡ false)
    × (liked swipes m.user1_id m.user2_id ≡ true)
    × (liked swipes m.user2_id m.user1_id ≡ true)
    × Consistent swipes ms

abbrev pub IsConsistent : World → Type 0
IsConsistent w = Consistent w.swipes w.matches

-- One more swipe leaves the likes that were there.
Consistent-add_swipe :
    (s : Swipe) (swipes : List Swipe) (ms : List Match)
    → Consistent swipes ms
    → Consistent (add s swipes) ms
Consistent-add_swipe s swipes [] h = tt
Consistent-add_swipe s swipes (m ∷ ms) h = ground (
  arith,
  Consistent-add_swipe s swipes ms h.4,
  exists-add (is_like_of m.user1_id m.user2_id) s swipes,
  exists-add (is_like_of m.user2_id m.user1_id) s swipes,
)

-- Where one of a pair has not liked the other, there is no match between them.
pub no_match_of_not_liked :
    (a b : ℕ) (swipes : List Swipe) (ms : List Match)
    → Consistent swipes ms
    → liked swipes a b ≡ false
    → exists (is_pair (normalize a b)) ms ≡ false
no_match_of_not_liked a b swipes [] h n = refl
no_match_of_not_liked a b swipes (m ∷ ms) h n =
    ground (arith, no_match_of_not_liked a b swipes ms h.4 n)

Consistent-add_match :
    (new : Match) (swipes : List Swipe) (ms : List Match)
    → Consistent swipes ms
    → new.user1_id < new.user2_id
    → exists (is_pair (new.user1_id, new.user2_id)) ms ≡ false
    → liked swipes new.user1_id new.user2_id ≡ true
    → liked swipes new.user2_id new.user1_id ≡ true
    → Consistent swipes (add new ms)
Consistent-add_match new swipes [] h lt fresh l1 l2 = (lt, refl, l1, l2, tt)
Consistent-add_match new swipes (m ∷ ms) h lt fresh l1 l2 = ground (
  arith,
  Consistent-add_match new swipes ms h.4 lt,
  exists-add (is_pair (m.user1_id, m.user2_id)) new ms,
)

-- A like that goes through leaves the liked pair liked.
liked_after_add :
    (a b : ℕ) (s : Swipe) (swipes : List Swipe)
    → liked (add s swipes) a b ≡ (liked swipes a b || is_like_of a b s)
liked_after_add a b s swipes = exists-add (is_like_of a b) s swipes

is_pair-normalize : (a b : ℕ) → a ≢ b → (normalize a b).0 < (normalize a b).1
is_pair-normalize a b ne = ground arith

-- What is known when the swipe has been stored.
pub record IsReady (a b : ℕ) (action : SwipeAction) (w : World) : Type 0 where
  pub consistent : IsConsistent w
  pub apart : a ≢ b
  pub no_match : is_like action ≡ true → exists (is_pair (normalize a b)) w.matches ≡ false
  pub liking : is_like action ≡ true → liked w.swipes a b ≡ true

make_match-Consistent :
    (a b now : ℕ) (w : World)
    → IsConsistent w
    → a ≢ b
    → exists (is_pair (normalize a b)) w.matches ≡ false
    → liked w.swipes a b ≡ true
    → liked w.swipes b a ≡ true
    → IsConsistent (make_match a b now w).1
unfolding make_match create_between
make_match-Consistent a b now w h ne none_yet l1 l2 = ground (
  arith,
  Consistent-add_match (new_match (w.uuid4 w.drawn) (normalize a b) now) w.swipes w.matches h,
)

after_swipe-IsConsistent :
    (a b : ℕ) (action : SwipeAction) (now : ℕ) (w : World)
    → IsReady a b action w
    → IsConsistent (after_swipe a b action now w).1
unfolding after_swipe
after_swipe-IsConsistent a b action now w r = ground (
  arith,
  make_match-Consistent a b now w r.consistent r.apart,
  r.no_match,
  r.liking,
  r.consistent,
)

pub create_swipe-IsReady :
    (a b : ℕ) (action : SwipeAction) (now : ℕ) (w : World)
    → IsConsistent w
    → a ≢ b
    → (is_like action ≡ true → liked w.swipes a b ≡ false)
    → exists (is_same_swipe a b action) w.swipes ≡ false
    → IsReady a b action (create_swipe a b action now w).1
unfolding create_swipe
create_swipe-IsReady a b action now w h ne fresh e =
    let s = new_swipe (w.uuid4 w.drawn) a b action now in
    record {
      consistent = ground (arith, Consistent-add_swipe s w.swipes w.matches h);
      apart = ne;
      no_match = λ l. ground (arith, no_match_of_not_liked a b w.swipes w.matches h (fresh l));
      liking = λ l. ground (arith, liked_after_add a b s w.swipes);
    }

store_swipe-IsConsistent :
    (a b : ℕ) (action : SwipeAction) (now : ℕ) (w : World)
    → IsConsistent w
    → a ≢ b
    → (is_like action && is_some (liked_by a b w)) ≡ false
    → IsConsistent (store_swipe a b action now w).1
unfolding store_swipe create_swipe
store_swipe-IsConsistent a b action now w h ne fresh = ground (
  arith,
  after_swipe-IsConsistent a b action now (create_swipe a b action now w).1,
  create_swipe-IsReady a b action now w h ne,
  first-exists (is_like_of a b) w.swipes,
)

-- The case where the target is found.
swipe_found :
    (u x : User) (t : ℕ) (action : SwipeAction) (now : ℕ) (w : World)
    → IsConsistent w
    → get_user t w ≡ some x
    → IsConsistent (swipe u t action now w).1
unfolding swipe assert_can_interact assert_not_liked
swipe_found u x t action now w h e = ground (
  arith,
  first_sound (λ (y : User). y.id == t) w.users x,
  store_swipe-IsConsistent u.id t action now w h,
)

pub swipe-IsConsistent :
    (u : User) (t : ℕ) (action : SwipeAction) (now : ℕ) (w : World)
    → IsConsistent w
    → IsConsistent (swipe u t action now w).1
unfolding swipe
swipe-IsConsistent u t action now w h = elim (Option-cases (get_user t w)) [
  | inl e ↦ ground arith
  | inr (x, e) ↦ swipe_found u x t action now w h e
]
