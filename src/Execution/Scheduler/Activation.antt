-- ===== src/Execution/Scheduler/Activation.antt =====
-- execution/scheduler.go: `activate`, which starts an execution, and `ActivateFromRoot`. The queue of
-- nodes is one that is there; the stored workflow is an argument.
use miletos.Common.{
  ℕ, ◌≡◌, String, Bool, true, false, inl, inr, none, some, Bool-cases, find_where, string_eq, ◌==◌,
  trim_space,
}
use miletos.Workflow.{Workflow}
use miletos.Workflow.Graph.{roots}
use miletos.Execution.{is_terminal_execution_status}
use miletos.Execution.Store.{Store, ExecutionRow, unknown_root, root_required, ok}
use miletos.Execution.Store.Executions.{find_by_id, mark_execution_queued}
use miletos.Execution.Scheduler.Programs.{Program, value, ◌>>=◌, ◌>>◌, call, pure, raise}
use miletos.Execution.Scheduler.Returns.{>>=-value, call-value, pure-value}
use miletos.Execution.Scheduler.Scheduled.{Scheduled, schedule_ready-Scheduled}
use miletos.Execution.Scheduler.Kept.Ready.{find_by_id-same}
use miletos.Execution.Scheduler.Ready.{Schedule, schedule_ready}

module _ {V : Type 0} where
  abbrev is_root : Workflow V → String → Bool
  is_root w node_id = elim (find_where (λ n. n.id == node_id) (roots w)) [
    | none ↦ false
    | some n ↦ true
  ]

  abbrev from_root : Schedule V → Program V ℕ
  from_root c = elim (c.start_node_id == "") [
    | true ↦ schedule_ready c
    | false ↦ elim (is_root c.workflow c.start_node_id) [
      | true ↦ schedule_ready c
      | false ↦ raise unknown_root
    ]
  ]

  abbrev activate_for : (ExecutionRow V → Schedule V) → ExecutionRow V → Program V ℕ
  activate_for call_of e = elim (is_terminal_execution_status e.status) [
    | true ↦ pure 0
    | false ↦
        call (mark_execution_queued (call_of e).now e.company_id e.id) >> from_root (call_of e)
  ]

  -- `activate`: the number of nodes queued, 0 for an execution that is over.
  unfoldable activate : (ExecutionRow V → Schedule V) → String → String → Program V ℕ
  unfolding find_by_id mark_execution_queued roots schedule_ready
  activate call_of company_id execution_id =
      call (find_by_id company_id execution_id) >>= activate_for call_of

  -- `ActivateFromRoot`: the root must be named.
  unfoldable pub activate_from_root :
      (ExecutionRow V → Schedule V) → String → String → String → Program V ℕ
  unfolding activate trim_space
  activate_from_root call_of company_id execution_id root_node_id =
      elim (trim_space root_node_id == "") [
        | true ↦ raise root_required
        | false ↦
            activate (λ e. record (call_of e) { start_node_id = trim_space root_node_id })
              company_id execution_id
      ]

module _ {V : Type 0} (call_of : ExecutionRow V → Schedule V) where
  -- What becomes of the execution, and the number that is returned.
  pub data Activated (company_id execution_id root : String) (s : Store V) (n : ℕ) (s' : Store V)
      : Type 0 where
    is_over :
        (e : ExecutionRow V)
        → find_by_id company_id execution_id s ≡ ok e s
        → is_terminal_execution_status e.status ≡ true
        → s' ≡ s
        → n ≡ 0
        → Activated company_id execution_id root s n s'
    -- A live execution is queued, and then its nodes are, from a root of its workflow.
    begins :
        (e : ExecutionRow V) (s₁ : Store V)
        → find_by_id company_id execution_id s ≡ ok e s
        → is_terminal_execution_status e.status ≡ false
        → mark_execution_queued (call_of e).now e.company_id e.id s ≡ ok tt s₁
        → is_root (call_of e).workflow root ≡ true
        → Scheduled (record (call_of e) { start_node_id = root }) s₁ n s'
        → Activated company_id execution_id root s n s'

  from_root-value :
      (c : Schedule V) (s s' : Store V) (n : ℕ)
      → (c.start_node_id == "") ≡ false
      → from_root c s ≡ (s', value n)
      → (is_root c.workflow c.start_node_id ≡ true) × Scheduled c s n s'
  from_root-value c s s' n named h = elim (Bool-cases (is_root c.workflow c.start_node_id)) [
    | inl found ↦ (found, schedule_ready-Scheduled c s s' n (rw (named, found, from_root) at h))
    | inr absent ↦ let refused = rw (named, absent, from_root) at h in cc
  ]

  activate_for-Activated :
      (company_id execution_id root : String) (e : ExecutionRow V) (s s' : Store V) (n : ℕ)
      → (root == "") ≡ false
      → find_by_id company_id execution_id s ≡ ok e s
      → activate_for (λ x. record (call_of x) { start_node_id = root }) e s ≡ (s', value n)
      → Activated company_id execution_id root s n s'
  activate_for-Activated company_id execution_id root e s s' n named found h =
      let c : Schedule V = record (call_of e) { start_node_id = root } in
      let mark = mark_execution_queued c.now e.company_id e.id in
      elim (Bool-cases (is_terminal_execution_status e.status)) [
        | inl over ↦
            let (same, none_queued) = pure-value s s' 0 n (rw (over, activate_for) at h) in
            is_over e found over same none_queued
        | inr live ↦
            >>=-value (call mark) (λ _. from_root c) s s' n
              (λ s₁ a first h₁.
                let (rooted, k) = from_root-value c s₁ s' n named h₁ in
                begins e s₁ found live (call-value mark s s₁ a first) rooted k)
              (rw (live, activate_for) at h)
      ]

  -- When `ActivateFromRoot` returns a number, the root was named, and the execution was there. If it
  -- was over, nothing has changed, and the number is 0. Else the node named, its name without spaces
  -- around it, is a root of the workflow, the execution was marked as queued first, and `scheduleReady`
  -- has queued that number of nodes, with this one as the node that gets the start input.
  pub activate_from_root-Activated :
      (company_id execution_id root_node_id : String) (s s' : Store V) (n : ℕ)
      → activate_from_root call_of company_id execution_id root_node_id s ≡ (s', value n)
      → Activated company_id execution_id (trim_space root_node_id) s n s'
  unfolding activate_from_root activate
  activate_from_root-Activated company_id execution_id root_node_id s s' n h =
      let root = trim_space root_node_id in
      let find = find_by_id company_id execution_id in
      elim (Bool-cases (root == "")) [
        | inl blank ↦ let refused = rw (blank, activate_from_root) at h in cc
        | inr named ↦
            >>=-value (call find) (activate_for (λ x. record (call_of x) { start_node_id = root }))
              s s' n
              (λ s₁ e first h₁.
                let found = call-value find s s₁ e first in
                let same = find_by_id-same company_id execution_id s s₁ e found in
                activate_for-Activated company_id execution_id root e s s' n named
                  (rw same at found) (rw same at h₁))
              (rw (named, activate_from_root, activate) at h)
      ]
