-- ===== src/Discovery.antt =====
-- Profiles as others see them, preferences and the feed of recommendations: app/services/profile_service.py,
-- preference_service.py and recommendation_service.py.
pub mod Preferences
pub mod Payload
pub mod Engine
pub mod Feed
pub mod Profiles
