-- ===== src/Poi.antt =====
-- Points of interest: the choice of the sights that a route is to pass.
pub mod Stops
mod Tests
