-- ===== src/Discovery/Feed/Pages.antt =====
-- The pages of `build_feed` (app/services/recommendation_service.py), as a client follows them.
use matchmaking_backend.Prelude.{
  ℕ, zero, suc, ◌+◌, ◌-◌, ◌<◌, ◌≤◌, ◌≡◌, refl, ap, ◌∙◌, Bool, true, false, Option, none, some, List,
  ◌++◌, arith, ltb, length, take, drop, take-drop, drop-drop, take_all, length-drop,
}
use matchmaking_backend.Errors.{Result, ok, err}
use matchmaking_backend.Models.{Date, FeedItem}
use matchmaking_backend.World.{World}
use matchmaking_backend.Discovery.Payload.{ScoringEngine}
use matchmaking_backend.Discovery.Feed.{FeedPage, load_cached, page_of, start_of, build_feed}

abbrev prepend : List FeedItem → Option (List FeedItem) → Option (List FeedItem)
prepend items none = none
prepend items (some rest) = some (items ++ rest)

abbrev follow :
    (ℕ → World → Option (List FeedItem)) → Result FeedPage × World → Option (List FeedItem)
follow rest (err e, w) = none
follow rest (ok page, w) = elim page.next_cursor [
  | none ↦ some page.items
  | some k ↦ prepend page.items (rest k w)
]

module _ (engine : ScoringEngine) (today : Date) (viewer_id limit : ℕ) (clock : ℕ → ℕ) where
  -- What a client has read when it follows `next_cursor` to the end, the request with `n` left at
  -- `clock n`; none where it gave up.
  unfoldable pub walk : ℕ → Option ℕ → World → Option (List FeedItem)
  walk zero cursor w = none
  walk (suc n) cursor w =
      follow (λ k w'. walk n (some k) w')
        (build_feed engine today viewer_id limit cursor (clock n) w)

  build_feed_cached :
      (cursor : Option ℕ) (now : ℕ) (w : World) {items : List FeedItem}
      → load_cached viewer_id now w ≡ some items
      → build_feed engine today viewer_id limit cursor now w
        ≡ (ok (page_of items (start_of cursor) limit), w)
  unfolding build_feed
  build_feed_cached cursor now w e = rw e refl

  module _ (w : World) (items : List FeedItem)
      (cached : (n : ℕ) → load_cached viewer_id (clock n) w ≡ some items)
      (positive : 0 < limit) where
    -- Two slices in a row.
    page_and_rest :
        (start : ℕ) → take limit (drop start items) ++ drop (start + limit) items ≡ drop start items
    page_and_rest start = rw (← drop-drop start limit items) (take-drop limit (drop start items))

    last_page :
        (start : ℕ)
        → length items ≤ start + limit
        → take limit (drop start items) ≡ drop start items
    last_page start h =
        take_all limit (drop start items) (omega (arith, length-drop start items, h))

    step_walk :
        (n : ℕ) (cursor : Option ℕ) (more : Bool)
        → ltb (start_of cursor + limit) (length items) ≡ more
        → (more ≡ true
            → walk n (some (start_of cursor + limit)) w
              ≡ some (drop (start_of cursor + limit) items))
        → walk (suc n) cursor w ≡ some (drop (start_of cursor) items)
    unfolding walk
    step_walk n cursor true e rest =
        ap (follow (λ k w'. walk n (some k) w'))
          (build_feed_cached cursor (clock n) w {items = items} (cached n))
        ∙ rw e (rw (rest refl) (ap some (page_and_rest (start_of cursor))))
    step_walk n cursor false e rest =
        ap (follow (λ k w'. walk n (some k) w'))
          (build_feed_cached cursor (clock n) w {items = items} (cached n))
        ∙ rw e (ap some (last_page (start_of cursor) (not_less e)))
      where
        not_less :
            ltb (start_of cursor + limit) (length items) ≡ false
            → length items ≤ start_of cursor + limit
        not_less h = ground arith

    walk_from :
        (n : ℕ) (cursor : Option ℕ)
        → length items - start_of cursor < n
        → walk n cursor w ≡ some (drop (start_of cursor) items)
    walk_from zero cursor h = absurd (omega arith)
    walk_from (suc n) cursor h =
        step_walk n cursor (ltb (start_of cursor + limit) (length items)) refl
          λ more. walk_from n (some (start_of cursor + limit)) (ground arith)

    -- A client that follows next_cursor from the start with a positive limit, while the feed stays
    -- cached, ends within one request more than the feed has items, and has then read exactly the
    -- feed.
    pub walk-page_of : (n : ℕ) → length items < n → walk n none w ≡ some items
    unfolding drop
    walk-page_of n h = walk_from n none (omega (arith, h))
