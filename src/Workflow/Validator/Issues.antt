-- ===== src/Workflow/Validator/Issues.antt =====
-- workflow/validator.go: `ValidationIssue`. The texts for people (`Reason`, `Expected`, `Actual`) are
-- left out; code, field and what an issue is about are kept.
use miletos.Common.{
  String, Bool, true, false, Option, List, [], ◌∷◌, is_blank, trim_space, string_eq, ◌==◌,
  if◌then◌else◌,
}
use miletos.Workflow.{WorkflowNode, Object}
use miletos.Plugin.{Port, NodeRegistration, Failure, node_error, other_error}

pub record ValidationIssue : Type 0 where
  pub code : String
  pub field : String
  pub node_id : String
  pub edge_id : String
  pub plugin_type : String
  pub plugin_version : String
  pub cycle_path : List String

-- The lookups that the caller hands over: `RegistrationLookup`, `ConfigurationValidator` and the
-- optional `ConnectionRestrictionLookup`.
pub record Lookups (V : Type 0) : Type 0 where
  pub registration : String → Option (NodeRegistration V)
  pub validate_configuration : Option (String → Object V → Option Failure)
  pub connection_restricted : Option (String → String → String → Bool)

abbrev pub issue : String → String → ValidationIssue
issue code field = record {
  code = code;
  field = field;
  node_id = "";
  edge_id = "";
  plugin_type = "";
  plugin_version = "";
  cycle_path = [];
}

abbrev pub invalid : String → ValidationIssue
invalid field = issue "INVALID_WORKFLOW_DEFINITION" field

unfoldable pub normalized_version : String → String
normalized_version version = if is_blank version then "v1" else trim_space version

-- An issue about a node and its plugin.
unfoldable pub node_issue : {V : Type 0} → String → String → WorkflowNode V → ValidationIssue
unfolding normalized_version
node_issue code field node = record (issue code field) {
  node_id = node.id;
  plugin_type = node.type;
  plugin_version = normalized_version node.version;
}

abbrev pub configuration_issue_code : Failure → String
configuration_issue_code (node_error e) =
    if is_blank e.code then "INVALID_PLUGIN_CONFIGURATION" else e.code
configuration_issue_code other_error = "INVALID_PLUGIN_CONFIGURATION"

unfoldable pub has_port : List Port → String → Bool
has_port [] requested = false
has_port (p ∷ ps) requested =
    let rest = has_port ps requested in if p.name == requested then true else rest

-- The issue, if the test holds.
abbrev pub when : Bool → ValidationIssue → List ValidationIssue
when true i = i ∷ []
when false i = []
