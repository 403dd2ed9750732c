-- ===== src/Platform/Control/Agent.antt =====
-- Calls to the agents (`call_agent` of backend/app/services/agent_client.py) and the node that a
-- cluster's databases live on (`get_primary_node` of services/orchestrator.py). What an agent answers
-- is a parameter: the agents are other processes, and a call may not reach them.
use eminidatabase.Base.{ℕ, Bool, true, false, Option, none, some, [], ◌∷◌, ◌++◌, ◌==◌, ◌&&◌}
use eminidatabase.Base.Table.{lookup, rows}
use eminidatabase.Base.Action.{◌>>=◌, ◌>>◌, pure, raise, found, reads, writes, scalar_one}
use eminidatabase.Platform.Placement.{Node, ClusterMember, ClusterMemberRole, primary}
use eminidatabase.Platform.Control.{
  Control, AgentCall, Tx, no_result, multiple_results, runtime_error, agent_unreachable,
  agent_refused,
}

-- The fields of an answer's body that the callers read; a call looks at its own.
pub record Body : Type 0 where
  pub is_standby : Bool
  pub lag_bytes : Option ℕ
  pub size_bytes : ℕ
  pub active_connections : ℕ
  pub verified : Bool

pub data Answer : Type 0 where
  answered : Body → Answer
  refused : (status_code : ℕ) → Answer
  unreachable : Answer

-- What the agent on a node answers to a call.
abbrev pub Agents : Type 0
Agents = ℕ → AgentCall → Answer

abbrev pub from_answer : Answer → Tx Body
from_answer (answered body) = pure body
from_answer (refused status_code) = raise (agent_refused status_code)
from_answer unreachable = raise agent_unreachable

abbrev pub log_call : ℕ → AgentCall → Control → Control
log_call node_id call s = record s { sent = s.sent ++ ((node_id, call) ∷ []) }

-- A node without an address cannot be reached.
abbrev pub reach : Agents → ℕ → AgentCall → Option ℕ → Tx Body
reach agents node_id call none = raise agent_unreachable
reach agents node_id call (some _) = do
  writes (log_call node_id call)
  from_answer (agents node_id call)

unfoldable pub call_agent : Agents → ℕ → Node → AgentCall → Tx Body
call_agent agents node_id node call = reach agents node_id call node.ip_address

abbrev pub is_primary : ClusterMemberRole → Bool
is_primary primary = true
is_primary _ = false

-- A database that is not placed has no cluster, and the query finds no member.
abbrev pub is_primary_of : Option ℕ → ClusterMember → Bool
is_primary_of cluster_id m = elim cluster_id [
  | none ↦ false
  | some c ↦ m.cluster_id == c && is_primary m.role
]

unfoldable pub get_primary_node : Option ℕ → Tx (ℕ × Node)
get_primary_node cluster_id = do
  member ←
      scalar_one no_result multiple_results
        (← reads (λ s. rows (is_primary_of cluster_id) s.fleet.members))
  node ← found runtime_error (← reads (λ s. lookup (member.1).node_id s.fleet.nodes))
  pure ((member.1).node_id, node)
