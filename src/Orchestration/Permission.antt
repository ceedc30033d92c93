-- ===== src/Orchestration/Permission.antt =====
-- checkPermission of coding/dispatch.go: whether a role may run the binary of an agent.
use Prim.Native.String
use coworker.Prelude.{String, Bool, false, Option, none, some, [], ◌==◌, if◌then◌else◌, err}
use coworker.Core.Jobs.{AttentionItem}
use coworker.Permissions.{
  Permission, PermissionDecision, allow, hard_deny, requires_human, undeclared, evaluate_action,
}
use coworker.Store.Attention.{insert_attention}
use coworker.Orchestration.Effects.{
  Role, Dispatcher, Call, Failure, never_allowed, needs_approval, not_declared, Flow, pure, tried,
  ◌>>◌,
}

-- The action of running a binary.
unfoldable pub run_binary : String → Permission
run_binary base = record { kind = "bash"; subject = base; raw = String.◌++◌ "bash:" base }

-- The question names the role, in quotes (a name needs no escapes), and the action.
abbrev pub approval_item : String → Role → String → String → AttentionItem
approval_item run_id role id raw = record {
  id = id;
  run_id = run_id;
  kind = "permission";
  source = "dispatch";
  job_id = "";
  question =
      String.◌++◌ "Role \""
        (String.◌++◌ role.name (String.◌++◌ "\" requests permission to execute " raw));
  options = [];
  presented_on = [];
  answered_on = [];
  answered_by = "";
  answer = "";
  created_at = none;
  resolved_at = none;
}

-- `on_undeclared` lets a role proceed, where there is a policy.
abbrev pub warns : Option String → Bool
warns none = false
warns (some on_undeclared) = on_undeclared == "warn"

module _ {S : Type 0} where
  abbrev pub reject : {A : Type 0} → Failure → Flow S A
  reject x w = (err x, w)

  -- `item.ID` is the fresh id of the call. Whether the insert fails or not, an error follows.
  unfoldable pub request_approval : Dispatcher S → Call → String → Role → String → Flow S (Unit {0})
  request_approval d c run_id role raw =
      if d.attention_store
      then (do
        tried
            (insert_attention c.faults c.now c.event_id (approval_item run_id role c.event_id raw))
        reject needs_approval)
      else reject needs_approval

  unfoldable pub decide :
      Dispatcher S → Call → String → Role → String → PermissionDecision → Flow S (Unit {0})
  unfolding request_approval
  decide d c run_id role raw allow = pure tt
  decide d c run_id role raw hard_deny = reject never_allowed
  decide d c run_id role raw requires_human = request_approval d c run_id role raw
  decide d c run_id role raw undeclared = if warns d.policy then pure tt else reject not_declared

  unfoldable pub check_permission : Dispatcher S → Call → String → Role → String → Flow S (Unit {0})
  unfolding run_binary decide
  check_permission d c run_id role binary_name =
      let action = run_binary (d.base binary_name) in
      decide d c run_id role action.raw (evaluate_action d.equal_fold role.permissions action)
