-- ===== src/Billing.antt =====
-- Payments, subscriptions and job verifications: app/services/payment_service.py,
-- subscription_service.py and verification_service.py, and the jobs of app/workers/tasks.py.
pub mod Gateway
pub mod Checkout
pub mod Subscriptions
pub mod Verifications
pub mod Payments
pub mod Workers
