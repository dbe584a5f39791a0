-- ===== src/Capture.antt =====
-- ansible/openwrt/roles/openwrt_security_capture/files/security_capture.py: bounded captures of
-- packets on the router.
pub mod Pcap
pub mod Steps
pub mod Station
pub mod Config
pub mod Serve
pub mod Acknowledge
pub mod Bounds
pub mod Runs
pub mod Complete
mod Tests
