-- ===== src/Planner.antt =====
-- The planning graph: graph.py, state.py, tracing.py and nodes/*.py.
pub mod State
pub mod Constraints
pub mod Services
pub mod Ranking
pub mod Nodes
pub mod Graph
mod Tests
