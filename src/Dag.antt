-- ===== src/Dag.antt =====
-- backend/schemas/dag.py: the nodes of a scenario graph, `DAGScript.validate_dag` and the search
-- for reachable nodes. A node's `action` is a dict of texts; node ids are texts.
pub mod Node
pub mod Search
pub mod Reachable
pub mod Validate
pub mod Accepts
pub mod Errors
mod ValidNode
mod Whole
mod Tests
