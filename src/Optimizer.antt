-- ===== src/Optimizer.antt =====
-- The optimizer: the metrics of a route, and the choice among candidates by goals
-- (optimizer/engine.py).
pub mod Metrics
pub mod Engine
