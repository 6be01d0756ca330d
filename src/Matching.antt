-- ===== src/Matching.antt =====
-- Swipes, matches, blocks, profile shares, messages and notifications.
pub mod Queries
pub mod Swipes
pub mod Matches
pub mod Ending
pub mod Blocks
pub mod Shares
pub mod Sharing
pub mod Requests
pub mod Messages
pub mod Messaging
pub mod Notifications
