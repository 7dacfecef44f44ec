-- ===== src/Plugin.antt =====
-- internal/features/workflow-runtime/plugin: model.go, errors.go and the types of registry.go. `V` is
-- the type of JSON values. Of a registration's functions the validator is a function, and of the
-- handler only its presence is kept: handlers are the node processor's environment.
pub mod Registry
use miletos.Common.{ℕ, String, Bool, Option, List}
use miletos.Workflow.{Object}

pub record EdgeConstraint : Type 0 where
  pub minimum : ℕ
  pub maximum : Option ℕ

pub record Port : Type 0 where
  pub name : String
  pub edge_constraint : Option EdgeConstraint

pub record ConnectionRestriction : Type 0 where
  pub from : String
  pub to : String
  pub selector : String
  pub position : ℕ

pub record NodeError : Type 0 where
  pub category : String
  pub code : String
  pub message : String
  pub can_retry : Bool

-- A Go error, as `errors.As(err, &nodeError)` sees it.
pub data Failure : Type 0 where
  node_error : NodeError → Failure
  other_error : Failure

pub record NodeRegistration (V : Type 0) : Type 0 where
  pub key : String
  pub input_mode : String
  pub trigger_input_mode : String
  pub input_ports : List Port
  pub output_ports : List Port
  pub input_edge_constraint : EdgeConstraint
  pub output_edge_constraint : EdgeConstraint
  pub routing_mode : String
  pub validator : Option (Object V → Option Failure)
  pub allowed_execution_sources : List String
  pub connection_restrictions : List ConnectionRestriction
  pub has_handler : Bool
