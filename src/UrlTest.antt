-- ===== src/UrlTest.antt =====
-- The URL test with options (patches/daemon/url_test_options.go) and its client
-- (patches/experimental_libbox/url_test_options.go).
pub mod Wire
pub mod Groups
pub mod Network
pub mod Measurement
pub mod Toy
pub mod Daemon
