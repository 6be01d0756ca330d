-- ===== src/Matching/Blocks/Effect.antt =====
-- The pair after `block` of app/services/block_service.py.
use matchmaking_backend.Prelude.{
  ℕ, ◌≡◌, refl, true, ◌==◌, ==_refl, none, some, arith, exists, exists-add, first_sound, Option,
}
use matchmaking_backend.Errors.{ok}
use matchmaking_backend.Models.{User, Block}
use matchmaking_backend.World.{World, get_user}
use matchmaking_backend.Matching.Queries.{is_block_of, get_active_between}
use matchmaking_backend.Matching.Matches.{block_and_unmatch}
use matchmaking_backend.Matching.Ending.{end_found-none, normalize_comm}
use matchmaking_backend.Matching.Blocks.{new_block, create_block, store_block, block}

unknown_target :
    (u : User) (t now : ℕ) (w : World) {k : Block}
    → get_user t w ≡ none
    → (block u t now w).0 ≡ ok k
    → ⊥
unfolding block
unknown_target u t now w f e = ground arith

-- No active match of the two, and the block in its direction.
abbrev pub IsCut : ℕ → ℕ → World → Type 0
IsCut a b w =
    (get_active_between a b w ≡ none)
    × (get_active_between b a w ≡ none)
    × (exists (is_block_of a b) w.blocks ≡ true)

get_active_between_comm :
    (a b : ℕ) (w : World) → get_active_between a b w ≡ get_active_between b a w
get_active_between_comm a b w = rw (normalize_comm a b)

store_block-IsCut :
    (a b now : ℕ) (w : World) {k : Block}
    → (store_block a b now w).0 ≡ ok k
    → IsCut a b (store_block a b now w).1
unfolding store_block create_block block_and_unmatch
store_block-IsCut a b now w e = ground (
  arith,
  end_found-none a b now w,
  exists-add (is_block_of a b) (new_block (w.uuid4 w.drawn) a b now) w.blocks,
  ==_refl a,
  ==_refl b,
  normalize_comm a b,
)

block_found-IsCut :
    (u x : User) (t now : ℕ) (w : World) {k : Block}
    → get_user t w ≡ some x
    → (block u t now w).0 ≡ ok k
    → IsCut u.id t (block u t now w).1
unfolding block
block_found-IsCut u x t now w {k} f e =
    ground (
      arith,
      first_sound (λ (y : User). y.id == t) w.users x,
      store_block-IsCut u.id t now w {k = k},
    )

-- A block that returns leaves no active match between the two, whichever is named first, and stands
-- in the table.
pub block-IsCut :
    (u : User) (t now : ℕ) (w : World) {k : Block}
    → (block u t now w).0 ≡ ok k
    → IsCut u.id t (block u t now w).1
block-IsCut u t now w e = block_target (get_user t w) refl
  where
    block_target : (o : Option User) → get_user t w ≡ o → IsCut u.id t (block u t now w).1
    block_target none f = absurd (unknown_target u t now w f e)
    block_target (some x) f = block_found-IsCut u x t now w f e
