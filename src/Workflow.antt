-- ===== src/Workflow.antt =====
-- internal/features/workflow-runtime/workflow/model.go: definitions of workflows. `V` is the type
-- of JSON values, Go's `any`. `Position`, which the runtime only stores, is left out.
pub mod Graph
pub mod Validator
use miletos.Common.{ℕ, String, List}

-- `map[string]any`
abbrev pub Object : Type 0 → Type 0
Object V = List (String × V)

pub record Edge : Type 0 where
  pub id : String
  pub source_node_id : String
  pub source_output_port : String
  pub target_node_id : String
  pub target_input_port : String

pub record WorkflowNode (V : Type 0) : Type 0 where
  pub id : String
  pub display_name : String
  pub type : String
  pub version : String
  pub configuration : Object V

pub record Workflow (V : Type 0) : Type 0 where
  pub id : String
  pub company_id : String
  pub name : String
  pub revision : ℕ
  pub nodes : List (WorkflowNode V)
  pub edges : List Edge
  pub metadata : Object V
