-- ===== src/Moderation.antt =====
-- What the platform's staff decide: app/services/report_service.py, photo_service.py and
-- notification_campaign_service.py.
pub mod Reports
pub mod Photos
pub mod Campaigns
