-- ===== src/Weather.antt =====
-- Weather: filling the gaps of one forecast with another (weather/merge.py), and the service that falls
-- back from provider to provider (weather/service.py).
pub mod Merge
pub mod Service
mod Tests
