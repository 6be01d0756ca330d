-- ===== src/Matching/Blocks.antt =====
-- `BlockService` of app/services/block_service.py.
pub mod Effect
use matchmaking_backend.Prelude.{ℕ, some, [], ◌==◌, is_some, add, delete, exists}
use matchmaking_backend.Errors.{Error, Code, Fault}
use matchmaking_backend.Models.{Json, User, Block}
use matchmaking_backend.World.{
  Exec, pure, or_raise, raise_if, gets, modify, gen_uuid, get_user, audit, ◌>>=◌, ◌>>◌,
}
use matchmaking_backend.Matching.Queries.{is_block_of, get_block}
use matchmaking_backend.Matching.Matches.{block_and_unmatch}

abbrev pub new_block : ℕ → ℕ → ℕ → ℕ → Block
new_block id blocker blocked_user now = record {
  id = id;
  blocker_id = blocker;
  blocked_id = blocked_user;
  created_at = now;
}

-- The insertion, with the constraint `uq_block_pair`.
unfoldable pub create_block : ℕ → ℕ → ℕ → Exec Block
create_block blocker blocked_user now = do
  id ← gen_uuid
  taken ← gets (λ w. exists (is_block_of blocker blocked_user) w.blocks)
  raise_if taken (Error.fault Fault.uq_block)
  let b = new_block id blocker blocked_user now
  modify (λ w. record w { blocks = add b w.blocks })
  pure b

-- The part of `block` behind its checks.
unfoldable pub store_block : ℕ → ℕ → ℕ → Exec Block
store_block blocker blocked_user now = do
  b ← create_block blocker blocked_user now
  block_and_unmatch blocker blocked_user now
  audit "block.create" (some blocker) "user" (Json.uuid blocked_user) [] now
  pure b

unfoldable pub block : User → ℕ → ℕ → Exec Block
block blocker blocked_user_id now = do
  raise_if (blocker.id == blocked_user_id) (Error.forbidden Code.self_block)
  found ← gets (get_user blocked_user_id)
  target ← or_raise found (Error.not_found Code.user_not_found)
  existing ← gets (λ w. is_some (get_block blocker.id blocked_user_id w))
  raise_if existing (Error.conflict Code.already_blocked)
  store_block blocker.id target.id now

unfoldable pub unblock : User → ℕ → ℕ → Exec (Unit {0})
unblock blocker blocked_user_id now = do
  found ← gets (get_block blocker.id blocked_user_id)
  b ← or_raise found (Error.not_found Code.block_not_found)
  modify (λ w. record w { blocks = delete (λ c. c.id == b.id) w.blocks })
  audit "block.delete" (some blocker.id) "user" (Json.uuid blocked_user_id) [] now
