-- ===== src/Billing/Gateway.antt =====
-- What the billing services call and do not implement: the payment provider of the `PaymentProvider`
-- protocol (app/services/payment_service.py), and Python's `UUID(...)`, `str` and `upper`.
use matchmaking_backend.Prelude.{ℕ, Bool, true, Option, some, String}
use matchmaking_backend.Models.{JsonDict}

-- The fields of the answer of `create_checkout_session` that are read.
pub record CheckoutSession : Type 0 where
  pub checkout_url : Option String
  pub provider_payment_id : Option String

pub record Gateway : Type 0 where
  pub name : String
  -- None where the provider's client raises
  pub create_checkout_session : ℕ → String → JsonDict → Option CheckoutSession
  pub refund : String → Bool
  pub upper : String → String
  -- `UUID(s)`, None where it raises a ValueError
  pub parse_uuid : String → Option ℕ
  -- `str` of the Decimal of an amount
  pub amount_text : ℕ → String

-- `MockPaymentProvider`, over the two formatted texts and the case mapping.
abbrev pub mock_gateway :
    (checkout_url provider_payment_id : JsonDict → String) (upper : String → String)
    (parse_uuid : String → Option ℕ) (amount_text : ℕ → String)
    → Gateway
mock_gateway checkout_url provider_payment_id upper parse_uuid amount_text = record {
  name = "mock";
  create_checkout_session = λ amount currency metadata. some (record {
    checkout_url = some (checkout_url metadata);
    provider_payment_id = some (provider_payment_id metadata);
  });
  refund = λ provider_payment_id. true;
  amount_text = amount_text;
  upper = upper;
  parse_uuid = parse_uuid;
}
