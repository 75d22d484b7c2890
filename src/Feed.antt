-- ===== src/Feed.antt =====
-- include/feed and src/feed.
pub mod Parser
pub mod Feeds
pub mod Factory
