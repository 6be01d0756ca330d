-- ===== src/Billing/Subscriptions/Premium.antt =====
-- Premium under `activate_from_payment` (app/services/subscription_service.py) and
-- `expire_subscriptions` (app/workers/tasks.py).
use matchmaking_backend.Prelude.{
  ℕ, ◌+◌, ◌*◌, leb, if◌then◌else◌, ◌<◌, ◌≤◌, ◌≡◌, refl, sym, ◌∙◌, Bool, true, false, ◌&&◌, ◌||◌,
  Option, none, some, List, [], ◌∷◌, arith, ◌==◌, ==_refl, is_none, exists, exists-add, select,
  update,
}
use matchmaking_backend.Errors.{ok, is_ok}
use matchmaking_backend.Enums.{SubscriptionStatus}
use matchmaking_backend.Models.{Subscription, SubscriptionPlan, Payment}
use matchmaking_backend.World.{World}
use matchmaking_backend.Billing.Checkout.{lookup}
use matchmaking_backend.Billing.Subscriptions.{
  is_active_of, prefer, latest, get_active, runs_after, is_premium, find_plan, uuid_of,
  uuid_in_found, starts_from, renewed, new_subscription, renew_or_create, activate_from_payment,
}
use matchmaking_backend.Billing.Workers.{is_due, expire_subscriptions}

-- An active subscription of the user that ends after a time.
abbrev pub runs_for : ℕ → ℕ → Subscription → Bool
runs_for u t s = is_active_of u s && runs_after t (some s)

abbrev undated : ℕ → Subscription → Bool
undated u s = is_active_of u s && is_none s.expires_at

-- Every active subscription of the user has an end, as those have that a payment made.
abbrev pub IsDated : ℕ → List Subscription → Type 0
IsDated u ss = exists (undated u) ss ≡ false

abbrev undated_in : Option Subscription → Bool
undated_in none = false
undated_in (some s) = is_none s.expires_at

prefer_runs :
    (t : ℕ) (s : Subscription) (o : Option Subscription)
    → is_none s.expires_at ≡ false
    → undated_in o ≡ false
    → (runs_after t (some (prefer s o)) ≡ (runs_after t (some s) || runs_after t o))
      × (undated_in (some (prefer s o)) ≡ false)
prefer_runs t s none d e = ground arith
prefer_runs t s (some r) d e = ground arith

latest_runs :
    (u t : ℕ) (ss : List Subscription)
    → IsDated u ss
    → (runs_after t (latest (select (is_active_of u) ss)) ≡ exists (runs_for u t) ss)
      × (undated_in (latest (select (is_active_of u) ss)) ≡ false)
unfolding latest
latest_runs u t [] d = (refl, refl)
latest_runs u t (s ∷ ss) d =
    ground (arith, latest_runs u t ss, prefer_runs t s (latest (select (is_active_of u) ss)))

-- With dated subscriptions a user is premium while one of them runs.
premium_runs :
    (u t : ℕ) (w : World)
    → IsDated u w.subscriptions
    → is_premium u t w ≡ exists (runs_for u t) w.subscriptions
unfolding get_active
premium_runs u t w d = (latest_runs u t w.subscriptions d).0

abbrev expired : ℕ → List Subscription → List Subscription
expired now ss = update (is_due now) (λ s. record s { status = SubscriptionStatus.expired }) ss

expired_runs :
    (u t now : ℕ) (ss : List Subscription)
    → now ≤ t
    → exists (runs_for u t) (expired now ss) ≡ exists (runs_for u t) ss
expired_runs u t now [] le = refl
expired_runs u t now (s ∷ ss) le = ground (arith, expired_runs u t now ss le)

expired-IsDated : (u now : ℕ) (ss : List Subscription) → IsDated u ss → IsDated u (expired now ss)
expired-IsDated u now [] d = refl
expired-IsDated u now (s ∷ ss) d = ground (arith, expired-IsDated u now ss)

expired_none_due : (now : ℕ) (ss : List Subscription) → exists (is_due now) (expired now ss) ≡ false
expired_none_due now [] = refl
expired_none_due now (s ∷ ss) = ground (arith, expired_none_due now ss)

-- The expiry job leaves no active subscription that is due, and a user whose active subscriptions
-- all have an end is premium after it exactly when he was, now and at any later time.
pub expire_subscriptions-is_premium :
    (u t now : ℕ) (w : World)
    → IsDated u w.subscriptions
    → now ≤ t
    → (is_premium u t (expire_subscriptions now w) ≡ is_premium u t w)
      × (exists (is_due now) (expire_subscriptions now w).subscriptions ≡ false)
unfolding expire_subscriptions
expire_subscriptions-is_premium u t now w d le =
    let w' = record w { subscriptions = expired now w.subscriptions } in
    let after_job = premium_runs u t w' (expired-IsDated u now w.subscriptions d) in
    (
      after_job ∙ (expired_runs u t now w.subscriptions le ∙ sym (premium_runs u t w d)),
      expired_none_due now w.subscriptions,
    )

abbrev renewal : ℕ → Payment → ℕ → ℕ → List Subscription → List Subscription
renewal k p starts expires ss = update (λ s. s.id == k) (renewed p starts expires) ss

prefer_member :
    (u : ℕ) (x : Subscription) (xs : List Subscription) (o : Option Subscription) {s : Subscription}
    → latest (select (is_active_of u) xs) ≡ o
    → ((y : Subscription)
        → latest (select (is_active_of u) xs) ≡ some y
        → exists (λ t. t.user_id == u && t.id == y.id) xs ≡ true)
    → latest (select (is_active_of u) (x ∷ xs)) ≡ some s
    → exists (λ t. t.user_id == u && t.id == s.id) (x ∷ xs) ≡ true
unfolding latest
prefer_member u x xs none {s} f ih e = ground (arith, ==_refl s.id)
prefer_member u x xs (some y) {s} f ih e = ground (arith, ih y f, ==_refl s.id)

-- The chosen subscription is one of the user's rows.
latest_member :
    (u : ℕ) (ss : List Subscription) {s : Subscription}
    → latest (select (is_active_of u) ss) ≡ some s
    → exists (λ t. t.user_id == u && t.id == s.id) ss ≡ true
unfolding latest
latest_member u [] e = ground arith
latest_member u (x ∷ xs) {s} e =
    prefer_member u x xs (latest (select (is_active_of u) xs)) {s = s} refl
      (λ y f. latest_member u xs {s = y} f) e

renewal_runs :
    (u t k : ℕ) (p : Payment) (starts expires : ℕ) (ss : List Subscription)
    → t < expires
    → exists (λ s. s.user_id == u && s.id == k) ss ≡ true
    → exists (runs_for u t) (renewal k p starts expires ss) ≡ true
renewal_runs u t k p starts expires [] lt e = ground arith
renewal_runs u t k p starts expires (s ∷ ss) lt e =
    ground (arith, renewal_runs u t k p starts expires ss)

renewal-IsDated :
    (u k : ℕ) (p : Payment) (starts expires : ℕ) (ss : List Subscription)
    → IsDated u ss
    → IsDated u (renewal k p starts expires ss)
renewal-IsDated u k p starts expires [] d = refl
renewal-IsDated u k p starts expires (s ∷ ss) d =
    ground (arith, renewal-IsDated u k p starts expires ss)

-- What `renew_or_create` leaves, dated and with a subscription that runs until the new end.
renew_or_create_runs :
    (o : Option Subscription) (plan_id t starts expires now : ℕ) (p : Payment) (w : World)
    → latest (select (is_active_of p.user_id) w.subscriptions) ≡ o
    → IsDated p.user_id w.subscriptions
    → t < expires
    → IsDated p.user_id (renew_or_create o plan_id p starts expires now w).1.subscriptions
      × (exists
            (runs_for p.user_id t)
            (renew_or_create o plan_id p starts expires now w).1.subscriptions
          ≡ true)
unfolding renew_or_create
renew_or_create_runs none plan_id t starts expires now p w e d lt =
    let s = new_subscription (w.uuid4 w.drawn) plan_id p starts expires now in
    ground (
      arith,
      ==_refl p.user_id,
      exists-add (undated p.user_id) s w.subscriptions,
      exists-add (runs_for p.user_id t) s w.subscriptions,
    )
renew_or_create_runs (some s) plan_id t starts expires now p w e d lt = (
  renewal-IsDated p.user_id s.id p starts expires w.subscriptions d,
  renewal_runs p.user_id t s.id p starts expires w.subscriptions lt
      (latest_member p.user_id w.subscriptions {s = s} e),
)

renew_or_create_ok :
    (o : Option Subscription) (plan_id starts expires now : ℕ) (p : Payment) (w : World)
    → is_ok (renew_or_create o plan_id p starts expires now w).0 ≡ true
unfolding renew_or_create
renew_or_create_ok none plan_id starts expires now p w = refl
renew_or_create_ok (some s) plan_id starts expires now p w = refl

-- The later of the time and the end of the user's subscription.
abbrev later_end : Option ℕ → ℕ → ℕ
later_end none now = now
later_end (some e) now = if leb e now then now else e

abbrev pub covered_to : Option Subscription → ℕ → ℕ
covered_to none now = now
covered_to (some s) now = later_end s.expires_at now

-- The time up to which a payment at `now` is to extend the premium of a user, with days of 86,400
-- seconds.
abbrev pub extended : ℕ → SubscriptionPlan → ℕ → World → ℕ
extended u plan now w = covered_to (get_active u w) now + 86400 * plan.duration_days

starts_from-covered_to : (o : Option Subscription) (now : ℕ) → starts_from o now ≡ covered_to o now
starts_from-covered_to none now = refl
starts_from-covered_to (some s) now = ground arith

activated :
    (p : Payment) (plan : SubscriptionPlan) (k now : ℕ) (w : World)
    → uuid_of (lookup "plan_id" p.meta) ≡ some k
    → find_plan k w ≡ some plan
    → ((activate_from_payment p now w).0 ≡ ok tt)
      × ((activate_from_payment p now w).1.subscriptions
          ≡ (renew_or_create
              (get_active p.user_id w)
              plan.id
              p
              (starts_from (get_active p.user_id w) now)
              (extended p.user_id plan now w)
              now
              w).1.subscriptions)
unfolding activate_from_payment
activated p plan k now w m f = ground (
  arith,
  uuid_in_found (lookup "plan_id" p.meta) k w m,
  renew_or_create_ok (get_active p.user_id w) plan.id (starts_from (get_active p.user_id w) now)
      (extended p.user_id plan now w) now p w,
)

get_active-latest :
    (u : ℕ) (w : World) → latest (select (is_active_of u) w.subscriptions) ≡ get_active u w
unfolding get_active
get_active-latest u w = refl

-- A payment whose metadata name a plan activates a subscription without an error, and a payer whose
-- active subscriptions all had an end is premium at every time before the later of now and the end
-- of his active subscription that ends last, if he has one, plus the days of the plan.
pub activate_from_payment-is_premium :
    (p : Payment) (plan : SubscriptionPlan) (k t now : ℕ) (w : World)
    → uuid_of (lookup "plan_id" p.meta) ≡ some k
    → find_plan k w ≡ some plan
    → IsDated p.user_id w.subscriptions
    → t < extended p.user_id plan now w
    → ((activate_from_payment p now w).0 ≡ ok tt)
      × (is_premium p.user_id t (activate_from_payment p now w).1 ≡ true)
activate_from_payment-is_premium p plan k t now w m f d lt =
    let (good, same) = activated p plan k now w m f in
    let (dated, runs) =
      renew_or_create_runs (get_active p.user_id w) plan.id t
        (starts_from (get_active p.user_id w) now) (extended p.user_id plan now w) now p w
        (get_active-latest p.user_id w) d lt in
    let w' = (activate_from_payment p now w).1 in
    (good, premium_runs p.user_id t w' (rw same dated) ∙ (rw same runs))
