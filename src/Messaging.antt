-- ===== src/Messaging.antt =====
-- pkg/messaging: topics (topics.go, health.go).
pub mod Bytes
pub mod Topic
pub mod Subtopic
pub mod Parser
