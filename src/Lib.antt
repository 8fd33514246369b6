-- ===== src/Lib.antt =====
-- A bike routing agent (`src/bike_routing_agent`): a request for a bike trip is planned by a graph of
-- nodes, with routing engines, a geocoder and other services as adapters.
--
-- The parts, and the files that model them:
--   * Planner.antt and below it: the planning graph. State.antt is state.py (the state, the updates that
--     nodes return and how they are merged) and the wrapper of tracing.py; Constraints.antt is
--     `RouteConstraints` of models.py; Services.antt has what the nodes call, as operations that may
--     return anything. Nodes/ has a module for each of nodes/*.py (Nodes/Informative.antt the five that
--     only inform) and the sizing of loops (loops.py and `_sized_loop` of nodes/route.py). Ranking.antt is
--     `rank_candidates` of scoring/alternatives.py. Graph.antt is graph.py: the edges, one step, a run.
--   * Errors.antt: errors.py, the failures of providers.
--   * Storage/Migrations.antt: storage/migrate.py. Storage/Retention.antt: `prune` of
--     storage/retention.py, over the history of storage/history.py (Storage/History.antt).
--   * Chat.antt: chat/graph.py, the graph that answers one message of a conversation: the dialogue that
--     asks step by step (Chat/Guided.antt), the choice of the intent, the nodes and the edges. The
--     planning graph is a service of it.
--   * Optimizer.antt: optimizer/engine.py, which the planning graph's `optimize_candidates` calls.
--   * Weather.antt: weather/merge.py and weather/service.py.
--   * Poi.antt: poi/stops.py, the choice of the sights that `select_poi_stops` adds to a route.
--   * Providers/Downloads.antt, with one download in Providers/Downloads/Transfer.antt:
--     providers/brouter_downloads.py; Providers/OrsClient.antt: the transport of
--     providers/ors_client.py; Providers/Cache.antt: the caches of providers/base.py.
--   * Mcp/Protocol.antt: mcp_server/protocol.py.
--   * Base.antt: the names that all files share, lists and dictionaries, JSON values, results, sorting.
-- A node's function has the name that it has in the code. It takes the services and the state and returns
-- an update, or the exception that the code does not catch. The graph merges the update key by key, appends
-- the node's step to the trace, and follows the edge that the new status chooses.
--
-- Bounds: a run of the graph has the fuel of its eleven nodes, which is enough because the edges have no
-- cycle (Planner/Graph/Paths.antt). The chat's graph has a cycle, and its fuel is the limit on the steps of
-- a walk that LangGraph sets; six nodes are enough where no place has candidates to choose from
-- (Chat/Graph/Ends.antt).
-- The batches of retention have as fuel one more than the number of plans, which is enough because
-- each batch takes older ones (Storage/Retention/Ends.antt). The sizing of a loop makes at most three
-- requests (LOOP_MAX_ROUTES). The retries of a request count down from `max_retries`. All other recursion
-- is on a list. Python's integers have no width. Floats that are compared or added are counted in integer
-- units: confidences and scores in millionths, distances in millionths of a metre, coordinates in units of
-- 1e-7 degrees. The optimizer's floats are a parameter, with the order that it relies on as hypotheses.
--
-- Not modelled: the trigonometry of a loop's waypoints, the distance of two geometries, pydantic's
-- parsing of fields, the texts of the scorer's `rank_rationale` and of explanations, times, logging, and
-- the parts of messages that are put together from numbers. LoopPlan's `sides`, always 3, is left out.
-- Where a modelled function calls such code, it is a parameter; so are the patterns by which the chat reads
-- English, and which deletions of a store fail. Coroutines are functions: the engines' answers are collected in the order
-- of the engines, the forecasts that fill gaps in the order of the providers, and a download job runs as
-- one step, with a cancellation as an error that a transfer may end with. The API, the command line, the adapters of the engines and of the weather services, the search
-- for points of interest, the stores in databases, and the chat's service and store are not modelled.
pub mod Base
pub mod Chat
pub mod Errors
pub mod Mcp
pub mod Optimizer
pub mod Planner
pub mod Poi
pub mod Providers
pub mod Storage
pub mod Weather
