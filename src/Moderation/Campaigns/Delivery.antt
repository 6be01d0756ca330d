-- ===== src/Moderation/Campaigns/Delivery.antt =====
-- What `process` (app/services/notification_campaign_service.py) delivers.
use matchmaking_backend.Prelude.{
  ℕ, ◌+◌, ◌≡◌, refl, ap, ◌∙◌, true, false, Option, none, some, List, arith, after, length,
}
use matchmaking_backend.Errors.{ok}
use matchmaking_backend.Models.{NotificationCampaign}
use matchmaking_backend.World.{World}
use matchmaking_backend.Moderation.Campaigns.{
  resolve_audience, find_campaign, is_done, set_campaign, batches, send_batches, started, completed,
  Outcome, send_all, process_resolved, process_found, process,
}
use matchmaking_backend.Moderation.Campaigns.Batches.{
  told, occurrences, join-batches, delivered_of, is_done_opt, find-set_campaign, told-send_batches,
  count-send_batches, delivered-send_batches,
}

is_done_opt-completed :
    (now d : ℕ) (o : Option NotificationCampaign)
    → delivered_of o ≡ some d
    → is_done_opt (after (λ c. true) (completed now) o) ≡ true
is_done_opt-completed now d none h = ground arith
is_done_opt-completed now d (some c) h = refl

-- A campaign that is done stays as it is.
process_found-is_done :
    (now : ℕ) (o : Option NotificationCampaign) (w : World)
    → is_done_opt o ≡ true
    → process_found now o w ≡ (ok Outcome.already_done, w)
unfolding process_found
process_found-is_done now none w h = ground arith
process_found-is_done now (some c) w h = rw h refl

module _ (c : NotificationCampaign) (now : ℕ) (ids : List ℕ) (w : World) where
  unfoldable sent : ℕ × World
  sent =
      send_batches c now (batches (length ids) ids) 0
        (set_campaign c.id (started (length ids) now) w)

  told-send_all : (u : ℕ) → told u c.id (send_all c now ids w).1 ≡ told u c.id w + occurrences u ids
  unfolding send_all told
  told-send_all u =
      told-send_batches u c now (batches (length ids) ids) 0
        (set_campaign c.id (started (length ids) now) w)
      ∙ ap (λ l. told u c.id w + occurrences u l) (join-batches (length ids) ids (omega arith))

  count-send_all : (send_all c now ids w).0 ≡ length ids
  unfolding send_all
  count-send_all =
      let total =
        count-send_batches c now (batches (length ids) ids) 0
          (set_campaign c.id (started (length ids) now) w) in
      let whole = ap (λ l. length l) (join-batches (length ids) ids (omega arith)) in omega arith

  delivered-sent :
      find_campaign c.id w ≡ some c
      → c.delivered_count ≡ 0
      → delivered_of (find_campaign c.id sent.1) ≡ some sent.0
  unfolding sent
  delivered-sent h z =
      delivered-send_batches c now (batches (length ids) ids) 0
        (set_campaign c.id (started (length ids) now) w)
        (ap delivered_of (
            find-set_campaign c.id (started (length ids) now) w (λ x. refl)
            ∙ ap (after (λ x. true) (started (length ids) now)) h)
          ∙ ap some z)

  opened :
      is_done c.status ≡ false
      → resolve_audience c.audience now w ≡ ok ids
      → process_found now (some c) w
        ≡ (ok (Outcome.delivered (send_all c now ids w).0), (send_all c now ids w).1)
  unfolding process_found process_resolved
  opened q r = rw q (rw r refl)

  -- What processing the campaign comes to.
  process-send_all :
      find_campaign c.id w ≡ some c
      → is_done c.status ≡ false
      → resolve_audience c.audience now w ≡ ok ids
      → process c.id now w
        ≡ (ok (Outcome.delivered (send_all c now ids w).0), (send_all c now ids w).1)
  unfolding process
  process-send_all h q r = ap (λ o. process_found now o w) h ∙ opened q r

  delivered-send_all :
      find_campaign c.id w ≡ some c
      → c.delivered_count ≡ 0
      → delivered_of (find_campaign c.id (send_all c now ids w).1) ≡ some (length ids)
  unfolding send_all sent
  delivered-send_all h z =
      ap delivered_of (find-set_campaign c.id (completed now) sent.1 (λ x. refl))
      ∙ same (find_campaign c.id sent.1)
      ∙ delivered-sent h z
      ∙ ap some count-send_all
    where
      same :
          (o : Option NotificationCampaign)
          → delivered_of (after (λ x. true) (completed now) o) ≡ delivered_of o
      same none = refl
      same (some x) = refl

  process-send_all_again :
      (later : ℕ)
      → find_campaign c.id w ≡ some c
      → c.delivered_count ≡ 0
      → process c.id later (send_all c now ids w).1
        ≡ (ok Outcome.already_done, (send_all c now ids w).1)
  unfolding process send_all sent
  process-send_all_again later h z =
      process_found-is_done later (find_campaign c.id (send_all c now ids w).1)
        (send_all c now ids w).1
        (ap is_done_opt (find-set_campaign c.id (completed now) sent.1 (λ x. refl))
          ∙ is_done_opt-completed now sent.0 (find_campaign c.id sent.1) (delivered-sent h z))

  -- Processing a campaign that is not done, of which nothing was delivered and whose audience
  -- resolves, reports the number of its targets and records it, tells each user of the campaign
  -- once more for each time that he is a target, and leaves it done: processing it again, whenever,
  -- changes nothing.
  pub process-delivers :
      (u later : ℕ)
      → find_campaign c.id w ≡ some c
      → is_done c.status ≡ false
      → c.delivered_count ≡ 0
      → resolve_audience c.audience now w ≡ ok ids
      → ((process c.id now w).0 ≡ ok (Outcome.delivered (length ids)))
        × (told u c.id (process c.id now w).1 ≡ told u c.id w + occurrences u ids)
        × (delivered_of (find_campaign c.id (process c.id now w).1) ≡ some (length ids))
        × (process c.id later (process c.id now w).1
            ≡ (ok Outcome.already_done, (process c.id now w).1))
  process-delivers u later h q z r = rw (process-send_all h q r) (
    ap (λ n. ok (Outcome.delivered n)) count-send_all,
    told-send_all u,
    delivered-send_all h z,
    process-send_all_again later h z,
  )
