-- ===== src/Plugin/Registry/Entries.antt =====
-- plugin/registry.go: what is registered is what `Get` returns.
use miletos.Common.{
  String, true, false, ◌||◌, ◌≡◌, ◌≢◌, none, some, arith, trim_space, string_eq, ◌==◌,
  if◌then◌else◌,
}
use miletos.Plugin.{NodeRegistration}
use miletos.Plugin.Registry.{NodeRegistry, ok, lookup, completed, get, register_node}

module _ {V : Type 0} where
  -- A registration that is accepted is completed and put under its trimmed key, which was free.
  pub record Accepted (registry registry' : NodeRegistry V) (r : NodeRegistration V) : Type 0 where
    pub key_filled : (trim_space r.key == "") ≡ false
    pub was_free : get registry r.key ≡ none
    pub has_handler : r.has_handler ≡ true
    pub routing_known :
        ((completed r).routing_mode == "BROADCAST" || (completed r).routing_mode == "EXPLICIT")
        ≡ true
    pub trigger_known :
        ((completed r).trigger_input_mode == "ALL"
          || (completed r).trigger_input_mode == "AVAILABLE")
        ≡ true
    pub found :
        (node_type : String)
        → get registry' node_type ≡ (
            if trim_space r.key == trim_space node_type
            then some (completed r)
            else get registry node_type)

  -- When `RegisterNode` accepts a registration, its key is not blank and was free, a handler is there,
  -- and its routing mode and its trigger input mode, completed, are among the known ones (the input
  -- mode is not tested); `Get` then returns the completed registration for that key, and for
  -- every other key what it returned before.
  pub register_node-Accepted :
      (registry registry' : NodeRegistry V) (r : NodeRegistration V)
      → register_node registry r ≡ ok registry'
      → Accepted registry registry' r
  unfolding register_node get lookup
  register_node-Accepted registry registry' r h = ground arith

  -- A key that is taken is refused, whatever else the registration says.
  pub register_node-taken :
      (registry registry' : NodeRegistry V) (r taken : NodeRegistration V)
      → get registry r.key ≡ some taken
      → register_node registry r ≢ ok registry'
  unfolding register_node get lookup
  register_node-taken registry registry' r taken h = λ e. ground (arith, h, e)
