-- ===== src/Matching/Requests.antt =====
-- The endpoints of app/api/v1/swipes.py, matches.py and blocks.py: a service call and a commit. The
-- invariant of the matches over sequences of them.
use matchmaking_backend.Prelude.{
  ℕ, ◌≡◌, refl, Option, none, some, List, [], ◌∷◌, arith, ◌==◌, first,
}
use matchmaking_backend.Enums.{SwipeAction, MatchStatus}
use matchmaking_backend.Models.{User, Match}
use matchmaking_backend.World.{World, Exec, get_user, transaction}
use matchmaking_backend.Matching.Queries.{get_active_between}
use matchmaking_backend.Matching.Matches.{unmatch, get_for_user, block_and_unmatch, end_found}
use matchmaking_backend.Matching.Blocks.{create_block, store_block, block, unblock}
use matchmaking_backend.Matching.Swipes.{swipe}
use matchmaking_backend.Matching.Swipes.Consistent.{Consistent, IsConsistent, swipe-IsConsistent}
use matchmaking_backend.Matching.Ending.{Consistent-end_match}

pub data Request : Type 0 where
  create_swipe : User → ℕ → SwipeAction → Request
  delete_match block_user unblock_user : User → ℕ → Request

-- The tables after a request, whether it answered or raised.
unfoldable pub handle : World → ℕ × Request → World
handle w (now, Request.create_swipe u t action) = (transaction (swipe u t action now) w).1
handle w (now, Request.delete_match u id) = (transaction (unmatch u id now) w).1
handle w (now, Request.block_user u t) = (transaction (block u t now) w).1
handle w (now, Request.unblock_user u t) = (transaction (unblock u t now) w).1

unfoldable pub run : World → List (ℕ × Request) → World
run w [] = w
run w (r ∷ rs) = run (handle w r) rs

unmatch_found :
    (u : User) (id now : ℕ) (w : World) (o : Option Match)
    → first (λ m. m.id == id) w.matches ≡ o
    → IsConsistent w
    → IsConsistent (unmatch u id now w).1
unfolding unmatch get_for_user
unmatch_found u id now w none f h = ground arith
unmatch_found u id now w (some m) f h =
    ground (arith, Consistent-end_match m.id MatchStatus.unmatched now w.swipes w.matches h)

unmatch-IsConsistent :
    (u : User) (id now : ℕ) (w : World) → IsConsistent w → IsConsistent (unmatch u id now w).1
unmatch-IsConsistent u id now w h =
    unmatch_found u id now w (first (λ m. m.id == id) w.matches) refl h

Consistent-end_found :
    (o : Option Match) (now : ℕ) (w : World)
    → IsConsistent w
    → Consistent w.swipes (end_found o now w.matches)
Consistent-end_found none now w h = h
Consistent-end_found (some m) now w h =
    Consistent-end_match m.id MatchStatus.blocked now w.swipes w.matches h

store_block-IsConsistent :
    (a b now : ℕ) (w : World) → IsConsistent w → IsConsistent (store_block a b now w).1
unfolding store_block create_block block_and_unmatch
store_block-IsConsistent a b now w h =
    ground (arith, Consistent-end_found (get_active_between a b w) now w h)

block_found :
    (u : User) (t now : ℕ) (w : World) (o : Option User)
    → get_user t w ≡ o
    → IsConsistent w
    → IsConsistent (block u t now w).1
unfolding block
block_found u t now w none f h = ground arith
block_found u t now w (some x) f h = ground (arith, store_block-IsConsistent u.id x.id now w h)

block-IsConsistent :
    (u : User) (t now : ℕ) (w : World) → IsConsistent w → IsConsistent (block u t now w).1
block-IsConsistent u t now w h = block_found u t now w (get_user t w) refl h

unblock-IsConsistent :
    (u : User) (t now : ℕ) (w : World) → IsConsistent w → IsConsistent (unblock u t now w).1
unfolding unblock
unblock-IsConsistent u t now w h = ground arith

transaction-IsConsistent :
    {A : Type 0} (m : Exec A) (w : World)
    → IsConsistent w
    → IsConsistent (m w).1
    → IsConsistent (transaction m w).1
transaction-IsConsistent m w h k = ground arith

-- Every request keeps the matches consistent, also one that is refused.
pub handle-IsConsistent : (w : World) (r : ℕ × Request) → IsConsistent w → IsConsistent (handle w r)
unfolding handle
handle-IsConsistent w (now, Request.create_swipe u t action) h =
    transaction-IsConsistent (swipe u t action now) w h (swipe-IsConsistent u t action now w h)
handle-IsConsistent w (now, Request.delete_match u id) h =
    transaction-IsConsistent (unmatch u id now) w h (unmatch-IsConsistent u id now w h)
handle-IsConsistent w (now, Request.block_user u t) h =
    transaction-IsConsistent (block u t now) w h (block-IsConsistent u t now w h)
handle-IsConsistent w (now, Request.unblock_user u t) h =
    transaction-IsConsistent (unblock u t now) w h (unblock-IsConsistent u t now w h)

-- From consistent tables, any sequence of swipes, unmatches, blocks and unblocks, whether each
-- answers or raises, leaves them consistent: every match is of an ordered pair that no other match
-- has, and the two like each other.
pub run-IsConsistent :
    (w : World) (rs : List (ℕ × Request)) → IsConsistent w → IsConsistent (run w rs)
unfolding run
run-IsConsistent w [] h = h
run-IsConsistent w (r ∷ rs) h = run-IsConsistent (handle w r) rs (handle-IsConsistent w r h)
