-- ===== src/Agents.antt =====
-- agents/graph.py: the chat graph.
pub mod Routing
pub mod Citations
pub mod Repair
