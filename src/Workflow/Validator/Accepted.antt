-- ===== src/Workflow/Validator/Accepted.antt =====
-- workflow/validator.go: what holds of a workflow in which no issue is found.
pub mod Nodes
pub mod Edges
pub mod Counts
pub mod WellFormed
