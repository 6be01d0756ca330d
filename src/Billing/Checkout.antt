-- ===== src/Billing/Checkout.antt =====
-- `PaymentService.create_checkout` of app/services/payment_service.py, and how a payment is read and
-- written.
use matchmaking_backend.Prelude.{
  ℕ, Bool, false, Option, none, some, String, [], ◌∷◌, ◌==◌, ◌++◌, first, exists, update, add,
  if◌then◌else◌, str_eq,
}
use matchmaking_backend.Errors.{Error, Fault}
use matchmaking_backend.Enums.{PaymentStatus, PaymentType}
use matchmaking_backend.Models.{Json, JsonDict, User, Payment}
use matchmaking_backend.World.{
  World, Exec, pure, or_raise, raise_if, gets, modify, gen_uuid, audit, ◌>>=◌, ◌>>◌,
}
use matchmaking_backend.Accounts.Users.{is_text}
use matchmaking_backend.Billing.Gateway.{Gateway}

-- `meta.get(key)`; the last of two equal keys is not written here, for no key is written twice.
abbrev pub lookup : String → JsonDict → Option Json
lookup key [] = none
lookup key ((k, v) ∷ rest) = if str_eq k key then some v else lookup key rest

-- `session.get(Payment, id)`.
abbrev pub get_payment : ℕ → World → Option Payment
get_payment id w = first (λ p. p.id == id) w.payments

-- Assignments to the attributes of one payment.
abbrev pub set_payment : ℕ → (Payment → Payment) → Exec (Unit {0})
set_payment id f = modify (λ w. record w { payments = update (λ p. p.id == id) f w.payments })

abbrev pub new_payment : ℕ → ℕ → ℕ → String → PaymentType → String → JsonDict → ℕ → Payment
new_payment id user_id amount currency payment_type provider meta now = record {
  id = id;
  user_id = user_id;
  amount = amount;
  currency = currency;
  payment_type = payment_type;
  status = PaymentStatus.pending;
  provider = provider;
  provider_payment_id = none;
  meta = meta;
  paid_at = none;
  created_at = now;
}

-- `PaymentRepository.create`.
unfoldable pub create_payment : ℕ → ℕ → String → PaymentType → String → JsonDict → ℕ → Exec Payment
create_payment user_id amount currency payment_type provider meta now = do
  id ← gen_uuid
  let p = new_payment id user_id amount currency payment_type provider meta now
  modify (λ w. record w { payments = add p w.payments })
  pure p

-- The unique constraint of `payments.provider_payment_id`; a NULL clashes with nothing.
abbrev pub provider_id_taken : Option String → World → Bool
provider_id_taken none w = false
provider_id_taken (some s) w = exists (λ p. is_text p.provider_payment_id s) w.payments

pub record Checkout : Type 0 where
  pub checkout_url : Option String
  pub payment_id : ℕ
  pub provider : String
  pub amount : ℕ
  pub currency : String

unfoldable pub create_checkout :
    Gateway → User → PaymentType → ℕ → String → JsonDict → ℕ → Exec Checkout
create_checkout g user payment_type amount currency metadata now = do
  let meta = metadata ++ ("user_id", Json.uuid user.id) ∷ []
  p ← create_payment user.id amount currency payment_type g.name meta now
  session ←
      or_raise
        (g.create_checkout_session amount currency (p.meta ++ ("payment_id", Json.uuid p.id) ∷ []))
        (Error.fault Fault.provider_error)
  taken ← gets (provider_id_taken session.provider_payment_id)
  raise_if taken (Error.fault Fault.uq_provider_payment)
  set_payment p.id (λ p. record p { provider_payment_id = session.provider_payment_id })
  audit "payment.init" (some user.id) "payment" (Json.uuid p.id) [] now
  pure (record {
    checkout_url = session.checkout_url;
    payment_id = p.id;
    provider = g.name;
    amount = amount;
    currency = currency;
  })
