-- ===== src/Moderation/Campaigns/Batches.antt =====
-- The batches of `process` (app/services/notification_campaign_service.py).
use matchmaking_backend.Prelude.{
  ℕ, zero, suc, ◌+◌, ◌≤◌, ◌==◌, ◌≡◌, refl, ap, ◌∙◌, Bool, true, false, ◌&&◌, Option, none, some,
  List, [], ◌∷◌, ◌++◌, arith, if◌then◌else◌, str_eq, first, first-update_first, after, add, length,
  take, drop, take-drop, length-drop, count_where, count_where-add, ==_refl,
}
use matchmaking_backend.Models.{Json, JsonDict, Notification, NotificationCampaign}
use matchmaking_backend.World.{World}
use matchmaking_backend.Moderation.Campaigns.{
  is_campaign, find_campaign, is_done, set_campaign, batches, campaign_notification,
  add_notifications, with_delivered, send_batches,
}

abbrev names : ℕ → JsonDict → Bool
names id ((name, Json.uuid n) ∷ rest) = str_eq name "campaign_id" && n == id
names id _ = false

-- Whether a notification tells the user of the campaign.
unfoldable pub tells : ℕ → ℕ → Notification → Bool
tells u id n = n.user_id == u && names id n.data_

-- How many do.
unfoldable pub told : ℕ → ℕ → World → ℕ
told u id w = count_where (tells u id) w.notifications

-- How often a user stands among the targets.
unfoldable pub occurrences : ℕ → List ℕ → ℕ
occurrences u [] = 0
occurrences u (x ∷ xs) = let n = occurrences u xs in if x == u then suc n else n

abbrev pub join : List (List ℕ) → List ℕ
join [] = []
join (b ∷ bs) = b ++ join bs

occurrences-append :
    (u : ℕ) (xs ys : List ℕ) → occurrences u (xs ++ ys) ≡ occurrences u xs + occurrences u ys
unfolding occurrences
occurrences-append u [] ys = omega arith
occurrences-append u (x ∷ xs) ys = ground (arith, occurrences-append u xs ys)

length-append : (xs ys : List ℕ) → length (xs ++ ys) ≡ length xs + length ys
length-append [] ys = omega arith
length-append (x ∷ xs) ys = omega (arith, length-append xs ys)

-- The batches make up the targets.
pub join-batches : (n : ℕ) (ids : List ℕ) → length ids ≤ n → join (batches n ids) ≡ ids
unfolding batches
join-batches zero [] h = refl
join-batches zero (x ∷ xs) h = absurd (omega arith)
join-batches (suc n) [] h = refl
join-batches (suc n) (x ∷ xs) h =
    let shorter = length-drop 1000 (x ∷ xs) in
    ap (λ l. take 1000 (x ∷ xs) ++ l) (join-batches n (drop 1000 (x ∷ xs)) (omega arith))
    ∙ take-drop 1000 (x ∷ xs)

tells_own :
    (u : ℕ) (c : NotificationCampaign) (id x now : ℕ)
    → tells u c.id (campaign_notification c id x now) ≡ (x == u)
unfolding tells
tells_own u c id x now = ground (arith, ==_refl c.id)

told-add_notifications :
    (u : ℕ) (c : NotificationCampaign) (now : ℕ) (ids : List ℕ) (w : World)
    → told u c.id (add_notifications c now ids w) ≡ told u c.id w + occurrences u ids
unfolding told add_notifications occurrences
told-add_notifications u c now [] w = omega arith
told-add_notifications u c now (x ∷ xs) w =
    told-add_notifications u c now xs (record w {
      notifications = add (campaign_notification c (w.uuid4 w.drawn) x now) w.notifications;
      drawn = w.drawn + 1;
    })
    ∙ one (told u c.id w) (occurrences u xs) (tells_own u c (w.uuid4 w.drawn) x now) (
        count_where-add (tells u c.id) (campaign_notification c (w.uuid4 w.drawn) x now)
          w.notifications)
  where
    one :
        {t : ℕ} {b : Bool} (n k : ℕ)
        → b ≡ (x == u)
        → t ≡ (if b then suc n else n)
        → t + k ≡ n + (if x == u then suc k else k)
    one n k e h = ground arith

add_notifications-campaigns :
    (c : NotificationCampaign) (now : ℕ) (ids : List ℕ) (w : World)
    → (add_notifications c now ids w).campaigns ≡ w.campaigns
unfolding add_notifications
add_notifications-campaigns c now [] w = refl
add_notifications-campaigns c now (x ∷ xs) w = add_notifications-campaigns c now xs (record w {
  notifications = add (campaign_notification c (w.uuid4 w.drawn) x now) w.notifications;
  drawn = w.drawn + 1;
})

abbrev pub delivered_of : Option NotificationCampaign → Option ℕ
delivered_of none = none
delivered_of (some c) = some c.delivered_count

abbrev pub is_done_opt : Option NotificationCampaign → Bool
is_done_opt none = false
is_done_opt (some c) = is_done c.status

pub find-set_campaign :
    (id : ℕ) (f : NotificationCampaign → NotificationCampaign) (w : World)
    → ((c : NotificationCampaign) → (f c).id ≡ c.id)
    → find_campaign id (set_campaign id f w) ≡ after (λ c. true) f (find_campaign id w)
find-set_campaign id f w h =
    first-update_first (is_campaign id) f w.campaigns (λ c. ap (λ n. n == id) (h c))

delivered_of-with_delivered :
    (n d : ℕ) (o : Option NotificationCampaign)
    → delivered_of o ≡ some d
    → delivered_of (after (λ c. true) (with_delivered n) o) ≡ some n
delivered_of-with_delivered n d none h = ground arith
delivered_of-with_delivered n d (some c) h = refl

pub told-send_batches :
    (u : ℕ) (c : NotificationCampaign) (now : ℕ) (bs : List (List ℕ)) (d : ℕ) (w : World)
    → told u c.id (send_batches c now bs d w).1 ≡ told u c.id w + occurrences u (join bs)
unfolding send_batches told occurrences
told-send_batches u c now [] d w = omega arith
told-send_batches u c now (b ∷ bs) d w =
    let n = d + length b in
    let v = set_campaign c.id (with_delivered n) (add_notifications c now b w) in
    let rest = told-send_batches u c now bs n v in
    let here = told-add_notifications u c now b w in
    let both = occurrences-append u b (join bs) in omega arith

pub count-send_batches :
    (c : NotificationCampaign) (now : ℕ) (bs : List (List ℕ)) (d : ℕ) (w : World)
    → (send_batches c now bs d w).0 ≡ d + length (join bs)
unfolding send_batches
count-send_batches c now [] d w = omega arith
count-send_batches c now (b ∷ bs) d w =
    let n = d + length b in
    let v = set_campaign c.id (with_delivered n) (add_notifications c now b w) in
    let rest = count-send_batches c now bs n v in
    let both = length-append b (join bs) in omega arith

pub delivered-send_batches :
    (c : NotificationCampaign) (now : ℕ) (bs : List (List ℕ)) (d : ℕ) (w : World)
    → delivered_of (find_campaign c.id w) ≡ some d
    → delivered_of (find_campaign c.id (send_batches c now bs d w).1)
      ≡ some (send_batches c now bs d w).0
unfolding send_batches
delivered-send_batches c now [] d w h = h
delivered-send_batches c now (b ∷ bs) d w h =
    let n = d + length b in
    let added = add_notifications c now b w in
    let kept =
      ap (λ l. delivered_of (first (is_campaign c.id) l)) (add_notifications-campaigns c now b w) in
    delivered-send_batches c now bs n (set_campaign c.id (with_delivered n) added) (
      ap delivered_of (find-set_campaign c.id (with_delivered n) added (λ x. refl))
      ∙ delivered_of-with_delivered n d (find_campaign c.id added) (kept ∙ h))
