-- ===== src/Config.antt =====
-- The remote configuration (app/services/app_config_service.py, app_config_keys.py,
-- app/repositories/app_config_repo.py) and the request limits (app/security/rate_limit.py).
pub mod Keys
pub mod Registry
pub mod Service
pub mod Requests
pub mod Valid
pub mod Public
pub mod Cache
pub mod Limits
