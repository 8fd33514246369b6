-- ===== src/Planner/Nodes.antt =====
-- nodes/*.py: the functions that the graph runs, each from the state to an update.
pub mod Parse
pub mod Validate
pub mod Geocode
pub mod Loops
pub mod Route
pub mod Enrich
pub mod Score
pub mod Informative
