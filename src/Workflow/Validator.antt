-- ===== src/Workflow/Validator.antt =====
-- internal/features/workflow-runtime/workflow/validator.go: validation of workflow definitions.
pub mod Issues
pub mod Nodes
pub mod Edges
pub mod Counts
pub mod Validate
pub mod Accepted
