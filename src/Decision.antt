-- ===== src/Decision.antt =====
-- decision_service: the tool registry, the policy query, and the route that decides on a call.
pub mod Registry
pub mod Policy
pub mod Decide
