-- ===== src/Discovery/Feed/Visible.antt =====
-- Whom `_compute_feed` (app/services/recommendation_service.py) shows, and in which order.
use matchmaking_backend.Prelude.{
  is_none, ℕ, ◌≤◌, ◌≡◌, refl, ap, ◌∙◌, Bool, true, false, ◌&&◌, ◌||◌, not, some, List, [], ◌∷◌,
  ◌++◌, map, select, exists, arith, ◌==◌, ==_sound,
}
use matchmaking_backend.Enums.{is_active_status}
use matchmaking_backend.Errors.{Result, ok, err, is_ok}
use matchmaking_backend.Models.{Date, Profile, FeedItem, Match, Block, Swipe}
use matchmaking_backend.World.{World, Exec, ◌>>=◌}
use matchmaking_backend.Matching.Queries.{
  swiped_user_ids, active_match_ids_for, is_active_match_of, blocked_ids, who_blocked_me,
  is_block_of,
}
use matchmaking_backend.Discovery.Preferences.{hard_filters, soft_preferences, get_preference}
use matchmaking_backend.Discovery.Payload.{Payload, PreferencePayload, ScoringEngine, payload_of}
use matchmaking_backend.Discovery.Feed.{
  contains_id, is_discoverable, both_users, excluded_ids, candidates, get_by_user, insert_item,
  sort_items, score_one, score_soft, score_hard, compute_feed,
}

-- From the highest score down.
abbrev pub IsDescending : List FeedItem → Type 0
IsDescending [] = Unit {0}
IsDescending (i ∷ []) = Unit {0}
IsDescending (i ∷ j ∷ js) = (j.score ≤ i.score) × IsDescending (j ∷ js)

insert_item-IsDescending :
    (i : FeedItem) (is : List FeedItem) → IsDescending is → IsDescending (insert_item i is)
unfolding insert_item
insert_item-IsDescending i [] h = tt
insert_item-IsDescending i (j ∷ []) h = ground arith
insert_item-IsDescending i (j ∷ k ∷ ks) h = ground (arith, insert_item-IsDescending i (k ∷ ks) h.1)

sort_items-IsDescending : (is : List FeedItem) → IsDescending (sort_items is)
unfolding sort_items
sort_items-IsDescending [] = tt
sort_items-IsDescending (i ∷ is) =
    insert_item-IsDescending i (sort_items is) (sort_items-IsDescending is)

-- Whether a user is among the items.
abbrev pub shows : ℕ → List FeedItem → Bool
shows k is = exists (λ i. i.candidate_user_id == k) is

shows-insert_item :
    (k : ℕ) (i : FeedItem) (is : List FeedItem)
    → shows k (insert_item i is) ≡ (i.candidate_user_id == k || shows k is)
unfolding insert_item
shows-insert_item k i [] = refl
shows-insert_item k i (j ∷ js) = ground (arith, shows-insert_item k i js)

shows-sort_items : (k : ℕ) (is : List FeedItem) → shows k (sort_items is) ≡ shows k is
unfolding sort_items
shows-sort_items k [] = refl
shows-sort_items k (i ∷ is) =
    rw (shows-insert_item k i (sort_items is)) (rw (shows-sort_items k is) refl)

contains_id-append :
    (k : ℕ) (xs ys : List ℕ) → contains_id k (xs ++ ys) ≡ (contains_id k xs || contains_id k ys)
contains_id-append k [] ys = refl
contains_id-append k (x ∷ xs) ys = ground (arith, contains_id-append k xs ys)

contains_id-map {ℓ} :
    {A : Type ℓ} (k : ℕ) (p : A → Bool) (f : A → ℕ) (xs : List A)
    → contains_id k (map f (select p xs)) ≡ exists (λ x. p x && f x == k) xs
contains_id-map k p f [] = refl
contains_id-map k p f (x ∷ xs) = ground (arith, contains_id-map k p f xs)

-- Whom the viewer is not shown, said of the rows themselves.
abbrev is_match_with : ℕ → ℕ → World → Match → Bool
is_match_with viewer k w m =
    (m.user1_id == k || m.user2_id == k)
    && exists (λ n. is_active_match_of viewer n && n.id == m.id) w.matches

abbrev pub is_hidden : ℕ → ℕ → World → Bool
is_hidden viewer k w =
    exists (is_block_of viewer k) w.blocks
    || (exists (is_block_of k viewer) w.blocks
        || (exists (λ s. s.from_user_id == viewer && s.to_user_id == k) w.swipes
            || exists (is_match_with viewer k w) w.matches))

contains_id-both_users :
    (k : ℕ) (q : Match → Bool) (ms : List Match)
    → contains_id k (both_users (select q ms))
      ≡ exists (λ m. (m.user1_id == k || m.user2_id == k) && q m) ms
contains_id-both_users k q [] = refl
contains_id-both_users k q (m ∷ ms) = ground (arith, contains_id-both_users k q ms)

exists_same {ℓ} :
    {A : Type ℓ} (p q : A → Bool) (xs : List A) → ((x : A) → p x ≡ q x) → exists p xs ≡ exists q xs
exists_same p q [] h = refl
exists_same p q (x ∷ xs) h = ground (arith, h x, exists_same p q xs h)

contains_id-excluded_ids :
    (viewer k : ℕ) (w : World) → contains_id k (excluded_ids viewer w) ≡ is_hidden viewer k w
contains_id-excluded_ids viewer k w =
    let one =
      contains_id-map k (λ (b : Block). b.blocker_id == viewer) (λ b. b.blocked_id) w.blocks in
    let two =
      contains_id-map k (λ (b : Block). b.blocked_id == viewer) (λ b. b.blocker_id) w.blocks
      ∙ exists_same (λ (b : Block). b.blocked_id == viewer && b.blocker_id == k)
          (is_block_of k viewer) w.blocks λ b. ground arith in
    let three =
      contains_id-map k (λ (s : Swipe). s.from_user_id == viewer) (λ s. s.to_user_id) w.swipes in
    let active = λ (m : Match). contains_id m.id (active_match_ids_for viewer w) in
    let four =
      contains_id-both_users k active w.matches
      ∙ exists_same (λ (m : Match). (m.user1_id == k || m.user2_id == k) && active m)
          (is_match_with viewer k w) w.matches
          λ m.
            ap (λ (b : Bool). (m.user1_id == k || m.user2_id == k) && b)
              (contains_id-map m.id (is_active_match_of viewer) (λ (n : Match). n.id) w.matches) in
    rw (contains_id-append k (blocked_ids viewer w) _) (
      rw (contains_id-append k (who_blocked_me viewer w) _) (
        rw (contains_id-append k (swiped_user_ids viewer w) _)
          (rw one (rw two (rw three (rw four refl))))))

-- Who is shown to a viewer with a profile.
abbrev pub is_shown : ℕ → ℕ → World → Bool
is_shown viewer k w =
    exists (λ p. p.user_id == k) w.profiles
    && not (k == viewer)
    && exists
        (λ u.
          u.id == k
          && (is_active_status u.account_status && not u.is_banned && is_none u.deleted_at))
        w.users
    && not (is_hidden viewer k w)

exists-select {ℓ} :
    {A : Type ℓ} (p q : A → Bool) (xs : List A)
    → exists q (select p xs) ≡ exists (λ x. p x && q x) xs
exists-select p q [] = refl
exists-select p q (x ∷ xs) = ground (arith, exists-select p q xs)

-- What is asked of a number only is asked once.
exists_const {ℓ} :
    {A : Type ℓ} (c : ℕ → Bool) (f : A → ℕ) (k : ℕ) (xs : List A)
    → exists (λ x. c (f x) && f x == k) xs ≡ (exists (λ x. f x == k) xs && c k)
exists_const c f k [] = refl
exists_const c f k (x ∷ xs) = first_row (f x == k) refl (exists_const c f k xs)
  where
    first_row :
        (b : Bool)
        → (f x == k) ≡ b
        → exists (λ x. c (f x) && f x == k) xs ≡ (exists (λ x. f x == k) xs && c k)
        → exists (λ x. c (f x) && f x == k) (x ∷ xs) ≡ (exists (λ x. f x == k) (x ∷ xs) && c k)
    first_row true e ih = ground (arith, ap c (==_sound (f x) k e))
    first_row false e ih = ground arith

shows-candidates :
    (viewer k : ℕ) (w : World)
    → exists (λ p. p.user_id == k) (candidates viewer w) ≡ is_shown viewer k w
unfolding candidates
shows-candidates viewer k w =
    let c = λ (n : ℕ).
      (not (n == viewer) && exists (λ u. u.id == n && is_discoverable u) w.users)
      && not (contains_id n (excluded_ids viewer w)) in
    exists-select (λ (p : Profile). c p.user_id) (λ p. p.user_id == k) w.profiles
    ∙ (exists_const c (λ (p : Profile). p.user_id) k w.profiles
        ∙ ground (arith, contains_id-excluded_ids viewer k w))

shows-map :
    (engine : ScoringEngine) (today : Date) (v : Payload) (q : PreferencePayload) (k : ℕ)
    (w : World) (ps : List Profile)
    → shows k (map (score_one engine today v q w) ps) ≡ exists (λ p. p.user_id == k) ps
shows-map engine today v q k w [] = refl
shows-map engine today v q k w (p ∷ ps) = ground (arith, shows-map engine today v q k w ps)

-- A feed that was computed, for one user.
abbrev pub IsFeed : ℕ → ℕ → World → Result (List FeedItem) → Type 0
IsFeed viewer k w (err e) = ⊥
IsFeed viewer k w (ok items) = IsDescending items × (shows k items ≡ is_shown viewer k w)

module _ {A B : Type 0} (m : Exec A) (g : A → Exec B) (P : Result B → Type 0) (w : World) where
  by_result :
      (r : Result A)
      → (m w).0 ≡ r
      → is_ok r ≡ true
      → ((a : A) (w' : World) → P (g a w').0)
      → P ((m >>= g) w).0
  by_result (ok a) e good all = rw (e, ◌>>=◌) (all a (m w).1)
  by_result (err x) e good all = cc

  -- What follows an action that raises nothing.
  bind_ok : is_ok (m w).0 ≡ true → ((a : A) (w' : World) → P (g a w').0) → P ((m >>= g) w).0
  bind_ok good all = by_result (m w).0 refl good all

get_preference_ok : (user_id : ℕ) (w : World) → is_ok (get_preference user_id w).0 ≡ true
unfolding get_preference
get_preference_ok user_id w = ground arith

hard_filters_ok : (user_id : ℕ) (w : World) → is_ok (hard_filters user_id w).0 ≡ true
unfolding hard_filters
hard_filters_ok user_id w = ground (arith, get_preference_ok user_id w)

soft_preferences_ok : (user_id : ℕ) (w : World) → is_ok (soft_preferences user_id w).0 ≡ true
unfolding soft_preferences
soft_preferences_ok user_id w = ground (arith, get_preference_ok user_id w)

module _ (engine : ScoringEngine) (today : Date) (viewer k : ℕ) (w : World) where
  scored-IsFeed :
      (v : Payload) (q : PreferencePayload) (w' : World)
      → IsFeed viewer k w
          (ok (sort_items (map (score_one engine today v q w') (candidates viewer w))))
  scored-IsFeed v q w' =
      let items = map (score_one engine today v q w') (candidates viewer w) in
      (
        sort_items-IsDescending items,
        shows-sort_items k items
            ∙ (shows-map engine today v q k w' (candidates viewer w) ∙ shows-candidates viewer k w),
      )

  -- Where the viewer has a profile, the feed is computed without an error, its scores descend, and
  -- a user is in it exactly when he has a profile, is not the viewer, is active, neither banned nor
  -- deleted, and is neither blocked by nor blocking, swiped by nor actively matched with the
  -- viewer.
  pub compute_feed-IsFeed :
      {profile : Profile}
      → get_by_user viewer w ≡ some profile
      → IsFeed viewer k w (compute_feed engine today viewer w).0
  unfolding compute_feed
  compute_feed-IsFeed {profile} e =
      let cands = candidates viewer w in
      let hard = score_hard engine today cands profile viewer in
      rw e (
        bind_ok (hard_filters viewer) hard (IsFeed viewer k w) w (hard_filters_ok viewer w)
          λ pref w1.
            bind_ok (soft_preferences viewer) (score_soft engine today cands profile pref)
              (IsFeed viewer k w) w1 (soft_preferences_ok viewer w1)
              λ soft w2.
                scored-IsFeed (payload_of today profile w2) (record { pref = pref; soft = soft })
                  w2)
