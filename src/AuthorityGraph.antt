-- ===== src/AuthorityGraph.antt =====
-- functions/authority-graph: authority units, the loader that hydrates a chain of them, the
-- arbitration of a request in tiers, and the reduction of a unit to its minimum.
pub mod Unit
pub mod Loader
pub mod Arbitration
pub mod Reduction
