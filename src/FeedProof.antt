-- ===== src/FeedProof.antt =====
-- banip_feed_proof.py: the proof that the active kernel sets hold what the feeds publish.
pub mod Net
pub mod Collapse
pub mod Lines
pub mod Parse
pub mod Data
pub mod Config
pub mod Verify
pub mod Summary
mod Tests
