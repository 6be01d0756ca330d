-- ===== src/Matching/Messaging.antt =====
-- The operations of app/services/message_service.py.
use matchmaking_backend.Prelude.{
  ℕ, zero, suc, ◌-◌, ◌≤◌, ◌≡◌, true, ◌&&◌, List, [], ◌∷◌, Option, none, is_some, is_none, arith,
  count_where, String, String,
}
use matchmaking_backend.Errors.{ok}
use matchmaking_backend.Enums.{MessageType}
use matchmaking_backend.Models.{User, Message, Match, Block}
use matchmaking_backend.World.{World}
use matchmaking_backend.Matching.Queries.{get_active_between, get_block}
use matchmaking_backend.Matching.Messages.{
  is_unread, unread_count, mark_unread, mark_read, assert_participant, start_conversation, send,
  other_participant,
}

module _ (c u now : ℕ) where
  -- Of the unread rows, `limit` at most are read.
  count-mark_unread :
      (limit : ℕ) (ms : List Message)
      → count_where (is_unread c u) (mark_unread limit c u now ms)
        ≡ count_where (is_unread c u) ms - limit
  unfolding mark_unread
  count-mark_unread zero ms = omega arith
  count-mark_unread (suc limit) [] = omega arith
  count-mark_unread (suc limit) (m ∷ ms) =
      ground (arith, count-mark_unread limit ms, count-mark_unread (suc limit) ms)

  unread_count-le :
      (ms : List Message)
      → count_where (λ (m : Message). is_unread c u m && is_none m.deleted_at) ms
        ≤ count_where (is_unread c u) ms
  unread_count-le [] = omega arith
  unread_count-le (m ∷ ms) = ground (arith, unread_count-le ms)

-- A read of a conversation that returns leaves at most as many unread messages as there were,
-- deleted ones included, less 500.
pub mark_read-unread_count :
    (u : User) (c now : ℕ) (w : World)
    → (mark_read u c now w).0 ≡ ok tt
    → unread_count c u.id (mark_read u c now w).1 ≤ count_where (is_unread c u.id) w.messages - 500
unfolding mark_read assert_participant
mark_read-unread_count u c now w e = ground (
  arith,
  unread_count-le c u.id now (mark_unread 500 c u.id now w.messages),
  count-mark_unread c u.id now 500 w.messages,
)

-- A conversation starts only between two users with an active match who have not blocked each
-- other.
pub start_conversation_allowed :
    (u : User) (t now : ℕ) (w : World) {id : ℕ}
    → (start_conversation u t now w).0 ≡ ok id
    → (is_some (get_active_between u.id t w) ≡ true)
      × (get_block u.id t w ≡ none)
      × (get_block t u.id w ≡ none)
unfolding start_conversation
start_conversation_allowed u t now w e = ground arith

-- Sending a message consults neither the matches nor the blocks: with any other tables of these the
-- answer is the same.
pub send_ignores_matches :
    (u : User) (c : ℕ) (k : MessageType) (body url : Option String) (now : ℕ) (w : World)
    (ms : List Match) (bs : List Block)
    → (send u c k body url now (record w { matches = ms; blocks = bs })).0
      ≡ (send u c k body url now w).0
unfolding send assert_participant other_participant
send_ignores_matches u c k body url now w ms bs = ground arith
