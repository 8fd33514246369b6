-- ===== src/Storage.antt =====
-- Storage: the PostGIS backend's schema (storage/migrate.py), the history of plans of one process
-- (storage/history.py) and the retention of plans and artifacts (storage/retention.py).
pub mod Migrations
pub mod History
pub mod Retention
