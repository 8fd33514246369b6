-- ===== src/Chat.antt =====
-- The chat: the requests that it puts together, the step-by-step dialogue, and the graph whose walk is
-- one turn of a conversation (chat/graph.py).
pub mod Requests
pub mod Guided
pub mod State
pub mod Intents
pub mod Planning
pub mod Clarify
pub mod Answers
pub mod Graph
mod Tests
