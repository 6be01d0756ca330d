-- ===== src/Billing/Payments/Lifecycle.antt =====
-- The status of a payment under `handle_webhook` (app/services/payment_service.py).
use matchmaking_backend.Prelude.{
  ℕ, ◌≡◌, refl, Bool, true, false, ◌&&◌, Option, none, some, String, List, [], ◌∷◌, arith, after,
  exists, first, first-update, first_sound, update, ◌==◌, ==_refl, ==_sound, str_eq, ap, sym, ◌∙◌,
  ◌⊎◌, inl, inr, not, if◌then◌else◌,
}
use matchmaking_backend.Enums.{PaymentStatus, is_settled}
use matchmaking_backend.Models.{Payment}
use matchmaking_backend.World.{World, raise_if, gets, ◌>>=◌, ◌>>◌}
use matchmaking_backend.Errors.{Error, Code}
use matchmaking_backend.Accounts.Users.{truthy, is_text}
use matchmaking_backend.Billing.Gateway.{Gateway}
use matchmaking_backend.Billing.Checkout.{get_payment}
use matchmaking_backend.Billing.Payments.{
  Event, by_uuid, by_candidate, or_else, get_by_provider_id, provider_id_of, find_payment,
  mark_failed, process, process_found, handle_webhook,
}
use matchmaking_backend.Billing.Payments.Webhook.{mark_success-payments}

-- The statuses that a webhook can lead to: a settled payment stays as it is, and any other can
-- succeed or fail.
pub data WebhookStep : PaymentStatus → PaymentStatus → Type 0 where
  stays : (s : PaymentStatus) → WebhookStep s s
  succeeds_from : (s : PaymentStatus) → is_settled s ≡ false → WebhookStep s PaymentStatus.success
  fails_from : (s : PaymentStatus) → is_settled s ≡ false → WebhookStep s PaymentStatus.failed

-- No two payments have one id.
abbrev pub UniqueId : List Payment → Type 0
UniqueId [] = Unit {0}
UniqueId (p ∷ ps) = (exists (λ (q : Payment). q.id == p.id) ps ≡ false) × UniqueId ps

not_among :
    (q : Payment → Bool) (k : ℕ) (ps : List Payment) {p : Payment}
    → exists (λ (x : Payment). x.id == k) ps ≡ false
    → first q ps ≡ some p
    → (k == p.id) ≡ false
not_among q k [] h e = ground arith
not_among q k (x ∷ xs) {p} h e = ground (arith, not_among q k xs {p = p})

-- A row that a query found is the one that its id names.
by_own_id :
    (q : Payment → Bool) (ps : List Payment) {p : Payment}
    → UniqueId ps
    → first q ps ≡ some p
    → first (λ (x : Payment). x.id == p.id) ps ≡ some p
by_own_id q [] u e = ground arith
by_own_id q (x ∷ xs) {p} u e =
    ground (arith, by_own_id q xs {p = p} u.1, not_among q x.id xs {p = p} u.0, ==_refl x.id)

by_uuid_own :
    (o : Option ℕ) (w : World) {p : Payment}
    → UniqueId w.payments
    → by_uuid o w ≡ some p
    → get_payment p.id w ≡ some p
by_uuid_own none w u e = ground arith
by_uuid_own (some id) w {p} u e = by_own_id (λ x. x.id == id) w.payments {p = p} u e

or_else_cases :
    (a b : Option Payment) {p : Payment} → or_else a b ≡ some p → (a ≡ some p) ⊎ (b ≡ some p)
or_else_cases none b e = inr e
or_else_cases (some x) b e = inl e

by_candidate_own :
    (g : Gateway) (c : Option String) (w : World) {p : Payment}
    → UniqueId w.payments
    → by_candidate g c w ≡ some p
    → get_payment p.id w ≡ some p
by_candidate_own g c w {p} u e = of_text (truthy c) e
  where
    of_text :
        (o : Option String)
        → elim o [ none ↦ none | some s ↦ by_uuid (g.parse_uuid s) w ] ≡ some p
        → get_payment p.id w ≡ some p
    of_text none f = cc
    of_text (some s) f = by_uuid_own (g.parse_uuid s) w {p = p} u f

find_payment_own :
    (g : Gateway) (e : Event) (w : World) {p : Payment}
    → UniqueId w.payments
    → find_payment g e w ≡ some p
    → get_payment p.id w ≡ some p
unfolding find_payment
find_payment_own g e w {p} u f =
    let named = λ (x : Payment).
      str_eq x.provider g.name && is_text x.provider_payment_id (provider_id_of e) in
    let rest = or_else (by_candidate g e.payment_id w) (by_candidate g e.provider_payment_id w) in
    elim (or_else_cases (get_by_provider_id g.name (provider_id_of e) w) rest {p = p} f) [
      | inl h ↦ by_own_id named w.payments {p = p} u h
      | inr h ↦
          elim (or_else_cases (by_candidate g e.payment_id w)
            (by_candidate g e.provider_payment_id w) {p = p} h) [
              | inl k ↦ by_candidate_own g e.payment_id w {p = p} u k
              | inr k ↦ by_candidate_own g e.provider_payment_id w {p = p} u k
            ]
    ]

abbrev with_status : ℕ → (Payment → Payment) → List Payment → List Payment
with_status k f ps = update (λ p. p.id == k) f ps

abbrev failed : Payment → Payment
failed p = record p { status = PaymentStatus.failed }

abbrev succeeded : ℕ → Payment → Payment
succeeded now p = record p { status = PaymentStatus.success; paid_at = some now }

-- What processing an event makes of the payments.
process-payments :
    (g : Gateway) (e : Event) (p : Payment) (now : ℕ) (w : World)
    → ((process g e p now w).1.payments ≡ w.payments)
      ⊎ ((is_settled p.status ≡ false)
          × (((process g e p now w).1.payments ≡ with_status p.id (succeeded now) w.payments)
              ⊎ ((process g e p now w).1.payments ≡ with_status p.id failed w.payments)))
unfolding process mark_failed
process-payments g e p now w = ground (arith, mark_success-payments p now w)

-- The two rows of one id, before and after.
abbrev pub StepIn : Option Payment → Option Payment → Type 0
StepIn none none = Unit {0}
StepIn (some p) (some q) = WebhookStep p.status q.status
StepIn _ _ = ⊥

StepIn-refl : (o : Option Payment) → StepIn o o
StepIn-refl none = tt
StepIn-refl (some p) = stays p.status

StepIn-after :
    (k : ℕ) (f : Payment → Payment) (o : Option Payment)
    → ((x : Payment) → o ≡ some x → (x.id == k) ≡ true → WebhookStep x.status (f x).status)
    → StepIn o (after (λ x. x.id == k) f o)
StepIn-after k f none h = tt
StepIn-after k f (some x) h = chosen (x.id == k) (h x refl)
  where
    chosen :
        (b : Bool)
        → (b ≡ true → WebhookStep x.status (f x).status)
        → WebhookStep x.status (if b then f x else x).status
    chosen true s = s refl
    chosen false s = stays x.status

same_row :
    (w : World) (k : ℕ) (p x : Payment)
    → get_payment p.id w ≡ some p
    → get_payment k w ≡ some x
    → (x.id == p.id) ≡ true
    → x ≡ p
same_row w k p x own e same =
    let at_k = ==_sound x.id k (first_sound (λ (y : Payment). y.id == k) w.payments x e) in
    let at_p = ==_sound x.id p.id same in
    let rows : get_payment k w ≡ get_payment p.id w =
      ap (λ (n : ℕ). get_payment n w) (sym at_k ∙ at_p) in
    cc

module _ (g : Gateway) (e : Event) (now k : ℕ) (w : World) (unique : UniqueId w.payments) where
  written :
      (p : Payment) (f : Payment → Payment) (w' : World)
      → ((x : Payment) → ((f x).id == k) ≡ (x.id == k))
      → get_payment p.id w ≡ some p
      → WebhookStep p.status (f p).status
      → w'.payments ≡ with_status p.id f w.payments
      → StepIn (get_payment k w) (get_payment k w')
  written p f w' keeps own step same = rw same (
      rw (first-update (λ (x : Payment). x.id == k) (λ x. x.id == p.id) f w.payments keeps)
        (StepIn-after p.id f (get_payment k w) λ x h is_p. rw (same_row w k p x own h is_p) step))

  processed :
      (o : Option Payment)
      → find_payment g e w ≡ o
      → StepIn (get_payment k w) (get_payment k (process_found g e o now w).1)
  processed none f = StepIn-refl (get_payment k w)
  processed (some p) f =
      let own = find_payment_own g e w {p = p} unique f in
      let w' = (process g e p now w).1 in
      elim (process-payments g e p now w) [
        | inl same ↦ rw same (StepIn-refl (get_payment k w))
        | inr (pending, inl same) ↦
            written p (succeeded now) w' (λ x. refl) own (succeeds_from p.status pending) same
        | inr (pending, inr same) ↦
            written p failed w' (λ x. refl) own (fails_from p.status pending) same
      ]

  -- While no two payments have one id, a webhook, whatever it reports and whether it returns or
  -- raises, adds and removes no payment under any id, leaves the status of a payment that is
  -- SUCCESS or REFUNDED, and leaves any other as it was, SUCCESS or FAILED.
  pub handle_webhook-WebhookStep :
      (name : String) → StepIn (get_payment k w) (get_payment k (handle_webhook g name e now w).1)
  unfolding handle_webhook
  handle_webhook-WebhookStep name = by_name (str_eq name g.name)
    where
      by_name :
          (b : Bool)
          → StepIn (get_payment k w) (
              get_payment k
                (((raise_if (not b) (Error.app_error Code.unknown_provider))
                    >> (gets (find_payment g e) >>= λ o. process_found g e o now))
                  w).1)
      by_name true = processed (find_payment g e w) refl
      by_name false = StepIn-refl (get_payment k w)
